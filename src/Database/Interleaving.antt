-- ===== src/Database/Interleaving.antt =====
-- `Database::user_transaction` (src/Database.cpp) call by call: nothing keeps two threads of the server
-- from being in it at once, and each call of the storage is a transaction of its own.
pub mod Alone
pub mod Apart
pub mod Schedules
pub mod Race
use secure_person2person_p2p.Base.{
  ℕ, zero, suc, Bool, true, false, ◌&&◌, ◌||◌, List, [], ◌∷◌, if◌then◌else◌, Bytes, bytes_eq, ℤ,
  pos,
}
use secure_person2person_p2p.Database.Storage.{Client, Storage}
use secure_person2person_p2p.Database.Amount.{Double}
use secure_person2person_p2p.Database.Operations.{
  named, is_online, debited, credited, transfer_ok, transfer_fail, transfer_sender_bankrupt,
  transfer_self_fail,
}

-- Where a thread is in the function: the call of the storage that comes next, with the variables that
-- are still used; or the status that was returned.
pub data Phase (D : Type 0) : Type 0 where
  starting finding_sender : Bytes → Bytes → D → Phase D
  finding_receiver : List Client → Bytes → D → Phase D
  debiting : Client → Client → D → Phase D
  crediting : Client → D → Phase D
  finished : ℤ → Phase D

module _ {Table D : Type 0} (st : Storage Table) (num : Double D) where
  -- The first test.
  abbrev pub admitted : Bytes → Bytes → D → Phase D
  admitted snd rcv pay =
      if num.leb pay (num.of_int (pos 0)) || bytes_eq snd rcv
      then if bytes_eq snd rcv then finished transfer_self_fail else finished transfer_fail
      else finding_sender snd rcv pay

  -- The tests on what the two queries found.
  abbrev pub decided : List Client → List Client → D → Phase D
  decided [] receivers pay = finished transfer_fail
  decided (sender ∷ []) [] pay = finished transfer_fail
  decided (sender ∷ []) (receiver ∷ []) pay =
      if num.ltb (num.sub (num.of_int sender.balance) pay) (num.of_int (pos 0))
      then finished transfer_sender_bankrupt
      else debiting sender receiver pay
  decided (sender ∷ []) (_ ∷ (_ ∷ _)) pay = finished transfer_fail
  decided (_ ∷ (_ ∷ _)) receivers pay = finished transfer_fail

  -- One call of the storage, and what the thread does up to the next.
  unfoldable pub advance : Table → Phase D → Table × Phase D
  advance t (starting snd rcv pay) = (st.sync_schema t, admitted snd rcv pay)
  advance t (finding_sender snd rcv pay) =
      (t, finding_receiver (st.get_all (λ r. named snd r && is_online r) t) rcv pay)
  advance t (finding_receiver senders rcv pay) =
      (t, decided senders (st.get_all (λ r. named rcv r && is_online r) t) pay)
  advance t (debiting sender receiver pay) =
      (st.update (debited st num sender pay) t, crediting receiver pay)
  advance t (crediting receiver pay) =
      (st.update (credited st num receiver pay) t, finished transfer_ok)
  advance t (finished status) = (t, finished status)

  -- A thread by itself, for a number of turns.
  unfoldable pub alone : ℕ → Table → Phase D → Table × Phase D
  unfolding advance
  alone zero t p = (t, p)
  alone (suc n) t p = let (t', p') = advance t p in alone n t' p'

  -- Two threads: `true` is a turn of the first, `false` one of the second.
  unfoldable pub interleave : List Bool → Table → Phase D → Phase D → Table × Phase D × Phase D
  unfolding advance
  interleave [] t p q = (t, p, q)
  interleave (true ∷ turns) t p q = let (t', p') = advance t p in interleave turns t' p' q
  interleave (false ∷ turns) t p q = let (t', q') = advance t q in interleave turns t' p q'
