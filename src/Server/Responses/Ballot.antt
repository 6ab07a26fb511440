-- ===== src/Server/Responses/Ballot.antt =====
-- The count of the votes.
use enclave_raft.Prelude.{
  Bool, Bool-cases, false, not, ◌&&◌, ◌||◌, ◌==◌, All, [], ◌∷◌, refl, sym, subst, ◌∙◌,
  if◌then◌else◌, ◌⊎◌, ℕ, ◌+◌, ◌/◌, ◌<◌, ◌≡◌, ◌≢◌, ap, true, inl, inr, List, Result, ok, arith,
  length,
}
use enclave_raft.Messages.{Resp}
use enclave_raft.Server.State.{Server, leader}
use enclave_raft.Server.Elect.{contains, add_voter}
use enclave_raft.Server.Elect.Frames.{become_leader-Led}
use enclave_raft.Server.Responses.{count_vote, handle_voting_resp}

leads_on_majority :
    (resp : Resp) (s : Server)
    → s.role ≢ leader
    → (handle_voting_resp resp s).1.role ≡ leader
    → (length s.peers + 1) / 2 < (handle_voting_resp resp s).1.votes_granted
unfolding handle_voting_resp count_vote
leads_on_majority resp s h k = grind (arith, become_leader-Led)

-- What the count takes of an answer, if it takes it.
abbrev Counts : Resp → Server → Server → Type 0
Counts resp s t =
    (resp.term ≡ s.state.term)
    × (contains resp.src s.voted_servers ≡ false)
    × (t.voted_servers ≡ resp.src ∷ s.voted_servers)
    × (t.votes_granted ≡ (if resp.accepted then s.votes_granted + 1 else s.votes_granted))

count_of :
    (resp : Resp) (s : Server)
    → ((handle_voting_resp resp s).1 ≡ s) ⊎ Counts resp s (handle_voting_resp resp s).1
unfolding handle_voting_resp count_vote add_voter
count_of resp s = grind (arith, become_leader-Led)

handle_voting_resp_state :
    (resp : Resp) (s : Server) → (handle_voting_resp resp s).1.state ≡ s.state
unfolding handle_voting_resp count_vote
handle_voting_resp_state resp s = grind (arith, become_leader-Led)

-- The server after the answers, the latest first.
abbrev pub poll : List Resp → Server → Server
poll [] s = s
poll (r ∷ rs) s = (handle_voting_resp r (poll rs s)).1

-- One of the answers gives the server's vote for the term.
unfoldable pub has_granted : ℕ → ℕ → List Resp → Bool
has_granted v term [] = false
has_granted v term (r ∷ rs) = (r.src == v && r.accepted && r.term == term) || has_granted v term rs

unfoldable pub is_set : List ℕ → Bool
is_set [] = true
is_set (x ∷ xs) = not (contains x xs) && is_set xs

-- A member's vote for the server in its term: its own, or that of an answer.
abbrev pub Backs : List Resp → Server → ℕ → Type 0
Backs rs s v = (v ≡ s.id) ⊎ (has_granted v s.state.term rs ≡ true)

abbrev Backed : List Resp → Server → List ℕ → Type 0
Backed rs s vs = All (Backs rs s) vs

-- The votes as they are counted: different voters, as many as votes, each of which has answered.
record Tally (rs : List Resp) (s t : Server) : Type 0 where
  voters : List ℕ
  different : is_set voters ≡ true
  backed : Backed rs s voters
  many : length voters ≡ t.votes_granted
  answered : (v : ℕ) → contains v voters ≡ true → contains v t.voted_servers ≡ true
  same_state : t.state ≡ s.state

later-Backed :
    (r : Resp) (rs : List Resp) (s : Server) (vs : List ℕ) → Backed rs s vs → Backed (r ∷ rs) s vs
unfolding has_granted
later-Backed r rs s [] h = tt
later-Backed r rs s (v ∷ vs) (h, hs) = (ground arith, later-Backed r rs s vs hs)

unanswered :
    (v : ℕ) (vs ws : List ℕ)
    → ((x : ℕ) → contains x vs ≡ true → contains x ws ≡ true)
    → contains v ws ≡ false
    → contains v vs ≡ false
unanswered v vs ws h k = elim (Bool-cases (contains v vs)) [
  | inl q ↦ absurd (cc (h v q))
  | inr q ↦ q
]

counted :
    (r : Resp) (rs : List Resp) (s t u : Server)
    → Tally rs s t
    → Counts r t u
    → u.state ≡ t.state
    → Tally (r ∷ rs) s u
unfolding is_set contains has_granted
counted r rs s t u tally (in_term, fresh, voted, votes) kept = elim (Bool-cases r.accepted) [
  | inl q ↦ record {
    voters = r.src ∷ tally.voters;
    different =
        let f : contains r.src tally.voters ≡ false =
          unanswered r.src tally.voters t.voted_servers tally.answered fresh in
        ground (arith, tally.different);
    backed =
        (inr (ground (arith, tally.same_state)), later-Backed r rs s tally.voters tally.backed);
    many = ground (arith, tally.many);
    answered = λ v h. ground (arith, tally.answered v);
    same_state = kept ∙ tally.same_state;
  }
  | inr q ↦ record {
    voters = tally.voters;
    different = tally.different;
    backed = later-Backed r rs s tally.voters tally.backed;
    many = ground (arith, tally.many);
    answered = λ v h. ground (arith, tally.answered v h);
    same_state = kept ∙ tally.same_state;
  }
]

passed_over :
    (r : Resp) (rs : List Resp) (s t u : Server) → Tally rs s t → u ≡ t → Tally (r ∷ rs) s u
passed_over r rs s t u tally h = subst (Tally (r ∷ rs) s) (sym h) (record {
  voters = tally.voters;
  different = tally.different;
  backed = later-Backed r rs s tally.voters tally.backed;
  many = tally.many;
  answered = tally.answered;
  same_state = tally.same_state;
})

poll-Tally :
    (rs : List Resp) (s : Server)
    → s.voted_servers ≡ s.id ∷ []
    → s.votes_granted ≡ 1
    → Tally rs s (poll rs s)
unfolding is_set contains
poll-Tally [] s h k = record {
  voters = s.id ∷ [];
  different = refl;
  backed = (inl refl, tt);
  many = sym k;
  answered = λ v l. rw h l;
  same_state = refl;
}
poll-Tally (r ∷ rs) s h k = elim (count_of r (poll rs s)) [
  | inl q ↦ passed_over r rs s (poll rs s) (poll (r ∷ rs) s) (poll-Tally rs s h k) q
  | inr c ↦
      counted r rs s (poll rs s) (poll (r ∷ rs) s) (poll-Tally rs s h k) c
        (handle_voting_resp_state r (poll rs s))
]

-- A candidate that has voted for itself alone and that an answer makes the leader, after whatever
-- answers before, has more votes than half of the members, itself among them: there is a list of so many
-- different servers, each of which is the candidate or has sent one of the answers, in the candidate's
-- term, that accepts.
pub handle_voting_resp-majority :
    (r : Resp) (rs : List Resp) (s : Server)
    → s.voted_servers ≡ s.id ∷ []
    → s.votes_granted ≡ 1
    → (poll rs s).role ≢ leader
    → (poll (r ∷ rs) s).role ≡ leader
    → (vs : List ℕ) × (is_set vs ≡ true)
      × All (Backs (r ∷ rs) s) vs
      × ((length (poll rs s).peers + 1) / 2 < length vs)
handle_voting_resp-majority r rs s h k n l =
    let tally = poll-Tally (r ∷ rs) s h k in
    (
      tally.voters,
      tally.different,
      tally.backed,
      ground (arith, tally.many, leads_on_majority r (poll rs s) n l),
    )

contains-add_voter : (x : ℕ) (ys : List ℕ) → contains x (add_voter x ys) ≡ true
unfolding contains add_voter
contains-add_voter x ys = ground arith

-- What the answer leaves: all as it was, or the vote counted.
voted_after :
    (resp : Resp) (s : Server)
    → (handle_voting_resp resp s ≡ (ok tt, s))
      ⊎ (contains resp.src (handle_voting_resp resp s).1.voted_servers ≡ true)
unfolding handle_voting_resp count_vote
voted_after resp s = grind (arith, become_leader-Led, contains-add_voter)

-- An answer of a server that has answered in this election is passed over.
answered_twice :
    (resp : Resp) (s : Server)
    → contains resp.src s.voted_servers ≡ true
    → handle_voting_resp resp s ≡ (ok tt, s)
unfolding handle_voting_resp
answered_twice resp s h = ground arith

-- An answer that comes twice counts once.
pub handle_voting_resp_twice :
    (resp : Resp) (s : Server)
    → (handle_voting_resp resp (handle_voting_resp resp s).1).1 ≡ (handle_voting_resp resp s).1
handle_voting_resp_twice resp s = elim (voted_after resp s) [
  | inl h ↦ ap (λ (x : Result (Unit {0}) × Server). (handle_voting_resp resp x.1).1) h
  | inr h ↦
      ap (λ (x : Result (Unit {0}) × Server). x.1)
        (answered_twice resp (handle_voting_resp resp s).1 h)
]
