-- ===== src/Server/Requests/Overlap.antt =====
-- How the entries of a request lie over those of a log, as lists.
use enclave_raft.Prelude.{
  append_assoc, take_add, take-drop, ℕ, suc, ◌+◌, ◌≤◌, ◌≡◌, refl, ap, ◌∙◌, sym, Bool-cases, inl,
  inr, List, [], ◌∷◌, ◌++◌, arith, ◌==◌, if◌then◌else◌, length, take, drop, map,
}
use enclave_raft.Entry.{LogEntry}
use enclave_raft.LogStore.{make_clone}

-- How many entries of the request the log has, by their terms.
unfoldable pub agree : List LogEntry → List LogEntry → ℕ
agree old [] = 0
agree [] (e ∷ new) = 0
agree (o ∷ old) (e ∷ new) = if o.term == e.term then suc (agree old new) else 0

-- The log behind the entry before those of the request, after it.
unfoldable pub merge : List LogEntry → List LogEntry → List LogEntry
merge old [] = old
merge [] (e ∷ new) = map make_clone (e ∷ new)
merge (o ∷ old) (e ∷ new) = if o.term == e.term then o ∷ merge old new else map make_clone (e ∷ new)

-- The log cut at `k` for the entries that are left, if there are any.
abbrev pub cut : ℕ → List LogEntry → List LogEntry → List LogEntry
cut k es [] = es
cut k es (e ∷ left) = take k es ++ map make_clone (e ∷ left)

cut-suc :
    (o : LogEntry) (old left : List LogEntry) (n : ℕ)
    → cut (suc n) (o ∷ old) left ≡ o ∷ cut n old left
cut-suc o old [] n = refl
cut-suc o old (e ∷ left) n = refl

-- From the front of the log.
cut-merge_front :
    (old new : List LogEntry) → cut (agree old new) old (drop (agree old new) new) ≡ merge old new
unfolding agree merge
cut-merge_front old [] = refl
cut-merge_front [] (e ∷ new) = refl
cut-merge_front (o ∷ old) (e ∷ new) = elim (Bool-cases (o.term == e.term)) [
  | inl h ↦ rw h (
      cut-suc o old (drop (agree old new) new) (agree old new)
      ∙ ap (λ (l : List LogEntry). o ∷ l) (cut-merge_front old new))
  | inr h ↦ rw h refl
]

cut-behind :
    (es left : List LogEntry) (j n : ℕ) → cut (j + n) es left ≡ take j es ++ cut n (drop j es) left
cut-behind es [] j n = sym (take-drop j es)
cut-behind es (e ∷ left) j n =
    ap (λ (l : List LogEntry). l ++ map make_clone (e ∷ left)) (take_add j n es)
    ∙ append_assoc (take j es) (take n (drop j es)) (map make_clone (e ∷ left))

pub agree_le : (old new : List LogEntry) → agree old new ≤ length old
unfolding agree
agree_le old [] = omega arith
agree_le [] (e ∷ new) = omega arith
agree_le (o ∷ old) (e ∷ new) = ground (arith, agree_le old new)

pub cut-merge :
    (es new : List LogEntry) (j : ℕ)
    → cut (j + agree (drop j es) new) es (drop (agree (drop j es) new) new)
      ≡ take j es ++ merge (drop j es) new
cut-merge es new j =
    cut-behind es (drop n new) j n
    ∙ ap (λ (l : List LogEntry). take j es ++ l) (cut-merge_front (drop j es) new)
  where
    n : ℕ
    n = agree (drop j es) new

-- The term of an entry.
abbrev pub terms : List LogEntry → List ℕ
terms [] = []
terms (e ∷ es) = e.term ∷ terms es

terms-clones : (es : List LogEntry) → terms (take (length es) (map make_clone es)) ≡ terms es
terms-clones [] = refl
terms-clones (e ∷ es) = ap (λ (l : List ℕ). e.term ∷ l) (terms-clones es)

-- Behind the entry before it, the log has the terms of the request.
pub merge-terms : (old new : List LogEntry) → terms (take (length new) (merge old new)) ≡ terms new
unfolding merge
merge-terms old [] = refl
merge-terms [] (e ∷ new) = terms-clones (e ∷ new)
merge-terms (o ∷ old) (e ∷ new) = elim (Bool-cases (o.term == e.term)) [
  | inl h ↦ ground (arith, merge-terms old new)
  | inr h ↦ ground (arith, terms-clones new)
]

-- A request whose entries the log has already changes nothing, also if it comes late.
pub merge-agree : (old new : List LogEntry) → agree old new ≡ length new → merge old new ≡ old
unfolding merge agree
merge-agree old [] h = refl
merge-agree [] (e ∷ new) h = absurd (omega arith)
merge-agree (o ∷ old) (e ∷ new) h = ground (arith, merge-agree old new)

-- The terms tell how many entries agree.
pub agree-terms :
    (old new : List LogEntry)
    → terms (take (length new) old) ≡ terms new
    → agree old new ≡ length new
unfolding agree
agree-terms old [] h = refl
agree-terms [] (e ∷ new) h = ground arith
agree-terms (o ∷ old) (e ∷ new) h = ground (arith, agree-terms old new)
