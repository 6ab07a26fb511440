-- ===== src/App/EchoMachine.antt =====
-- raft_enclave/app_impl/echo_state_machine.hxx: the state machine, which prints what it is given. What
-- is printed is the start of a text, up to 64 bytes.
use enclave_raft.Prelude.{
  ℕ, Bool, true, Option, none, some, List, [], ◌∷◌, take, Result, ok, err, fault, ◌>>=◌,
}
use enclave_raft.Buffer.{Buffer, get_str}
use enclave_raft.Snapshot.{Snapshot, serialize, deserialize}

-- What it prints of an entry by its index, or of a block by its offset.
pub data Line : Type 0 where
  pre_committed committed rolled_back snapshot_data : ℕ → List ℕ → Line

pub record EchoMachine : Type 0 where
  pub last_committed_idx : ℕ
  pub last_snapshot : Option Snapshot
  pub printed : List Line

unfoldable pub new_machine : EchoMachine
new_machine = record { last_committed_idx = 0; last_snapshot = none; printed = [] }

abbrev pub echo_size : ℕ
echo_size = 64

-- The text of an entry; a null pointer makes no string.
unfoldable pub text_of : Buffer → Result (List ℕ)
text_of b = elim (get_str b).0 [ none ↦ err fault | some s ↦ ok (take echo_size s) ]

unfoldable pub pre_commit : ℕ → Buffer → EchoMachine → Result EchoMachine
unfolding text_of
pre_commit idx b m =
    text_of b >>= λ msg. ok (record m { printed = pre_committed idx msg ∷ m.printed })

unfoldable pub commit : ℕ → Buffer → EchoMachine → Result EchoMachine
unfolding text_of
commit idx b m = text_of b >>= λ msg.
    ok (record m { printed = committed idx msg ∷ m.printed; last_committed_idx = idx })

-- The text is printed as it is, up to the end of the line; a null pointer is no text.
abbrev whole_text : Buffer → Result (List ℕ)
whole_text b = elim (get_str b).0 [ none ↦ err fault | some s ↦ ok s ]

unfoldable pub rollback : ℕ → Buffer → EchoMachine → Result EchoMachine
rollback idx b m =
    whole_text b >>= λ msg. ok (record m { printed = rolled_back idx msg ∷ m.printed })

unfoldable pub save_snapshot_data : ℕ → Buffer → EchoMachine → Result EchoMachine
save_snapshot_data offset b m =
    whole_text b >>= λ msg. ok (record m { printed = snapshot_data offset msg ∷ m.printed })

-- The copy of a snapshot by its wire form.
unfoldable pub clone_snapshot : (ℕ → ℕ) → Snapshot → Result Snapshot
clone_snapshot raw s = serialize raw s >>= λ buf. deserialize buf >>= λ (copy, rest). ok copy

unfoldable pub apply_snapshot : (ℕ → ℕ) → Snapshot → EchoMachine → Result (Bool × EchoMachine)
unfolding clone_snapshot
apply_snapshot raw s m =
    clone_snapshot raw s >>= λ copy. ok (true, record m { last_snapshot = some copy })

-- `read_snapshot_data`: no bytes are read.
unfoldable pub read_snapshot_data : Snapshot → ℕ → ℕ → ℕ × List ℕ
read_snapshot_data s offset size = (0, [])

-- The result is what the handler is called with.
unfoldable pub create_snapshot : (ℕ → ℕ) → Snapshot → EchoMachine → Result (Bool × EchoMachine)
unfolding clone_snapshot
create_snapshot raw s m =
    clone_snapshot raw s >>= λ copy. ok (true, record m { last_snapshot = some copy })
