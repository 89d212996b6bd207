-- ===== src/Server/Runs.antt =====
-- What holds of the server after any sequence of steps of its threads.
use secure_person2person_p2p.Base.{
  ℕ, ◌+◌, ◌*◌, ◌≤◌, ◌≡◌, refl, sym, ap, List, [], ◌∷◌, ◌++◌, Bytes, ℤ, pos, ◌+ℤ◌, ◌-ℤ◌, length,
  length-append, arith, int_laws, pos_part, neg_part, int_max, ◌∙◌,
}
use secure_person2person_p2p.Database.Storage.{Storage, IsStorage}
use secure_person2person_p2p.Database.Amount.{Double, IsDouble}
use secure_person2person_p2p.Database.Validity.{IsSound}
use secure_person2person_p2p.Database.Growth.{IsSane, sound-IsSane}
use secure_person2person_p2p.Util.Rsa.{OpenSsl}
use secure_person2person_p2p.Server.State.{World, ◌>>=◌}
use secure_person2person_p2p.Server.Handler.{Peer, Receipt, receive, drop_connection}
use secure_person2person_p2p.Server.Effects.{Keeps-receive, ReceiptAllowed}
use secure_person2person_p2p.Server.Threads.{counts-Stable}
use secure_person2person_p2p.Server.System.{
  IsSane-Stable, Thread, System, Step, accepts, starts, goes_on, ends, stops, breaks, Reach, here,
  next, start,
}

-- The two counts, and the bound on the threads.
pub record IsCounted {Table : Type 0} (limit : ℕ) (s : System Table) : Type 0 where
  pub current : s.world.current_user ≡ pos (length s.running + s.broken)
  pub accepted_ones :
      s.world.tmp_current_user ≡ pos (length s.waiting + length s.running + s.broken)
  pub bounded : length s.running ≤ limit

-- The counts after the loss of a thread, as a thread that ends by itself writes them.
lowered : (x : ℤ) (n : ℕ) → x ≡ pos (n + 1) → x -ℤ pos 1 ≡ pos n
lowered x n e = omega (int_laws, ap pos_part e, ap neg_part e)

raised : (x : ℤ) (n : ℕ) → x ≡ pos n → x +ℤ pos 1 ≡ pos (n + 1)
raised x n e = omega (int_laws, ap pos_part e, ap neg_part e)

-- A round leaves the counts.
round-counts :
    {Table D Key : Type 0} (st : Storage Table) (num : Double D) (ssl : OpenSsl Key)
    (private_key : Bytes) (Q : ℤ → ℤ → Type 0) (peer : Peer) (u : Bytes) (r : Receipt)
    (w : World Table)
    → Q w.current_user w.tmp_current_user
    → let w' = (receive st num ssl private_key peer u r w).1 in
      Q w'.current_user w'.tmp_current_user
round-counts st num ssl private_key Q peer u r w h =
    (Keeps-receive (counts-Stable st num Q) ssl private_key peer u r (λ k raw e t pay f. tt)).at w h

counted :
    {Table D Key : Type 0} (st : Storage Table) (num : Double D) (ssl : OpenSsl Key)
    (private_key : Bytes) (limit : ℕ) (s : System Table)
    → IsCounted limit s
    → (t : Thread) (r : Receipt)
    → let w' = (receive st num ssl private_key t.peer t.username r s.world).1 in
      (w'.current_user ≡ pos (length s.running + s.broken))
      × (w'.tmp_current_user ≡ pos (length s.waiting + length s.running + s.broken))
counted st num ssl private_key limit s c t r =
    round-counts st num ssl private_key
      (λ a b.
        (a ≡ pos (length s.running + s.broken))
        × (b ≡ pos (length s.waiting + length s.running + s.broken)))
      t.peer t.username r s.world (c.current, c.accepted_ones)

-- One thread less, in the list and in the counts.
closed-IsCounted :
    (limit waiting broken : ℕ) (running before after : List Thread) (t : Thread) (c d : ℤ)
    → running ≡ before ++ (t ∷ after)
    → c ≡ pos (length running + broken)
    → d ≡ pos (waiting + length running + broken)
    → length running ≤ limit
    → (c -ℤ pos 1 ≡ pos (length (before ++ after) + broken))
      × (d -ℤ pos 1 ≡ pos (waiting + length (before ++ after) + broken))
      × (length (before ++ after) ≤ limit)
closed-IsCounted limit waiting broken running before after t c d e h k b =
    let n = ap (length {0}) e in
    let x = length-append before (t ∷ after) in
    let y = length-append before after in
    (
      lowered c (length (before ++ after) + broken) (h ∙ ap pos (omega (arith, n, x, y))),
      lowered d (waiting + length (before ++ after) + broken) (k ∙ ap pos (omega (arith, n, x, y))),
      omega (arith, n, x, y),
    )

module _ {Table D Key : Type 0} {st : Storage Table} {num : Double D} {ssl : OpenSsl Key}
    {public_key private_key : Bytes} {limit : ℕ} {Fine : Receipt → Type 0} where
  Step-IsCounted :
      {s t : System Table}
      → Step st num ssl public_key private_key limit Fine s t
      → IsCounted limit s
      → IsCounted limit t
  unfolding ◌>>=◌ drop_connection
  Step-IsCounted {s} (accepts peer) c = record {
    current = c.current;
    accepted_ones =
        raised _ _ c.accepted_ones ∙ ap pos (omega (arith, length-append s.waiting (peer ∷ [])));
    bounded = c.bounded;
  }
  Step-IsCounted {s} (starts peer rest e l) c =
      let n = length-append s.running (record { peer = peer; username = [] } ∷ []) in
      record {
        current = raised _ _ c.current ∙ ap pos (omega (arith, n));
        accepted_ones = c.accepted_ones ∙ ap pos (omega (arith, n, ap (length {0}) e));
        bounded = omega (arith, n);
      }
  Step-IsCounted {s} (goes_on before after t r name e o f d) c =
      let n = ap (length {0}) e in
      let x = length-append before (t ∷ after) in
      let y = length-append before (record { peer = t.peer; username = name } ∷ after) in
      let same : length (before ++ (record { peer = t.peer; username = name } ∷ after))
          ≡ length s.running =
        omega (arith, n, x, y) in
      let k = counted st num ssl private_key limit s c t r in
      record {
        current = k.0 ∙ ap (λ m. pos (m + s.broken)) (sym same);
        accepted_ones = k.1 ∙ ap (λ m. pos (length s.waiting + m + s.broken)) (sym same);
        bounded = omega (arith, same);
      }
  Step-IsCounted {s} (ends before after t r e o f d) c =
      let w' = (receive st num ssl private_key t.peer t.username r s.world).1 in
      let k = counted st num ssl private_key limit s c t r in
      let z =
        closed-IsCounted limit (length s.waiting) s.broken s.running before after t w'.current_user
          w'.tmp_current_user e k.0 k.1 c.bounded in
      record { current = z.0; accepted_ones = z.1; bounded = z.2 }
  Step-IsCounted {s} (stops before after t e o) c =
      let z =
        closed-IsCounted limit (length s.waiting) s.broken s.running before after t
          s.world.current_user s.world.tmp_current_user e c.current c.accepted_ones c.bounded in
      record { current = z.0; accepted_ones = z.1; bounded = z.2 }
  Step-IsCounted {s} (breaks before after t r x e o f d) c =
      let k = counted st num ssl private_key limit s c t r in
      let n = ap (length {0}) e in
      let y = length-append before (t ∷ after) in
      let z = length-append before after in
      record {
        current = k.0 ∙ ap pos (omega (arith, n, y, z));
        accepted_ones = k.1 ∙ ap pos (omega (arith, n, y, z));
        bounded = omega (arith, n, y, z, c.bounded);
      }

  Reach-IsCounted_from :
      {s t : System Table}
      → Reach st num ssl public_key private_key limit Fine s t
      → IsCounted limit s
      → IsCounted limit t
  Reach-IsCounted_from here c = c
  Reach-IsCounted_from (next r d) c = Step-IsCounted d (Reach-IsCounted_from r c)

  -- After any steps of a server that has just started: `current_user` is the number of threads, and
  -- `tmp_current_user` that of the connections accepted and not finished, each counting besides the
  -- threads that an exception has ended; and there are never more threads than workers.
  pub Reach-IsCounted :
      (t : Table) {s : System Table}
      → Reach st num ssl public_key private_key limit Fine (start t) s
      → IsCounted limit s
  Reach-IsCounted t r =
      Reach-IsCounted_from r
        (record { current = refl; accepted_ones = refl; bounded = omega arith })

module _ {Table D Key : Type 0} {st : Storage Table} (law : IsStorage st) {num : Double D}
    (ieee : IsDouble num) (ssl : OpenSsl Key) (public_key private_key : Bytes) (limit : ℕ) where
  -- What is received has only transfers of whole amounts.
  abbrev pub WholeAmounts : Receipt → Type 0
  WholeAmounts = ReceiptAllowed (IsSane-Stable law ieee) ssl private_key

  round-IsSane :
      (t : Thread) (r : Receipt) (w : World Table)
      → WholeAmounts r
      → IsSane law w.db
      → IsSane law (receive st num ssl private_key t.peer t.username r w).1.db
  round-IsSane t r w f v =
      (Keeps-receive (IsSane-Stable law ieee) ssl private_key t.peer t.username r f).at w v

  Step-IsSane :
      {s t : System Table}
      → Step st num ssl public_key private_key limit WholeAmounts s t
      → IsSane law s.world.db
      → IsSane law t.world.db
  unfolding ◌>>=◌ drop_connection
  Step-IsSane (accepts peer) v = v
  Step-IsSane (starts peer rest e l) v = v
  Step-IsSane {s} (goes_on before after t r name e o f d) v = round-IsSane t r s.world f v
  Step-IsSane {s} (ends before after t r e o f d) v = round-IsSane t r s.world f v
  Step-IsSane (stops before after t e o) v = v
  Step-IsSane {s} (breaks before after t r x e o f d) v = round-IsSane t r s.world f v

  Reach-IsSane :
      {s t : System Table}
      → Reach st num ssl public_key private_key limit WholeAmounts s t
      → IsSane law s.world.db
      → IsSane law t.world.db
  Reach-IsSane here v = v
  Reach-IsSane (next r d) v = Step-IsSane d (Reach-IsSane r v)

  pub Reach-IsSound_from :
      {s t : System Table}
      → Reach st num ssl public_key private_key limit WholeAmounts s t
      → IsSound law s.world.db
      → 10000 * length (law.rows t.world.db) ≤ int_max
      → IsSound law t.world.db
  Reach-IsSound_from {s} r v = (Reach-IsSane r (sound-IsSane law s.world.db v)).sound

  -- From a sound table, and where the amounts of all transfers that are received are whole and fit an
  -- `int`: whatever else clients send over any number of connections, and in whatever order the
  -- threads handle it, message by message, the table is sound as long as it has at most 214748
  -- accounts.
  pub Reach-IsSound :
      (t : Table) {s : System Table}
      → Reach st num ssl public_key private_key limit WholeAmounts (start t) s
      → IsSound law t
      → 10000 * length (law.rows s.world.db) ≤ int_max
      → IsSound law s.world.db
  Reach-IsSound t = Reach-IsSound_from
