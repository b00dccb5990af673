-- ===== src/App/Access/Dumping.antt =====
-- `dump_to_file` where nothing fails: what the file holds in the end.
use fpga_emmc_card_reader.Base.{
  ℕ, zero, suc, ◌+◌, ◌-◌, ◌*◌, ◌^◌, ◌≤◌, ◌<◌, min, [], ◌∷◌, ◌++◌, List, ◌≡◌, refl, sym, ap, ◌∙◌,
  arith, false, ltb, ltb→lt, length, Bytes, u32, ok, Action, Error, Bool-cases, inl, inr,
  append_assoc, append-nil, subst,
}
use fpga_emmc_card_reader.Protocol.Sectors as Sectors
use fpga_emmc_card_reader.App.{with_retry, next_count, safe_read_chunk}
use fpga_emmc_card_reader.App.Message.{WorkerMessage, dump_completed}
use fpga_emmc_card_reader.App.Task.{
  Task, Report, Desk, attempt, send, resume, unless_cancelled, connect, on_connection, pure,
}
use fpga_emmc_card_reader.App.Access.{dump_loop, dump_to_file}

-- A machine on which nothing fails in a dump of the sectors from `start` up to `stop`: the reads, of
-- 64 sectors as long as there are so many, give the sectors of the card, the file takes what is
-- appended, and the user does not cancel.
pub record IsDumping {S : Type 0} (desk : Desk S) (port : Bytes) (baud : ℕ) (path : Bytes)
    (content : ℕ → ℕ → Bytes) (start stop : ℕ) : Type 1 where
  -- In this state the file holds these bytes, and the card was read up to this sector.
  pub Holds : S → Bytes → ℕ → Type 0
  pub opens : (s : S) → (s' : S) × (connect desk port baud s ≡ (ok tt, s'))
  pub creates : (s : S) → (s' : S) × (desk.create_file path s ≡ (ok tt, s')) × Holds s' [] start
  pub reads :
      (s : S) (w : Bytes) (p n : ℕ)
      → start ≤ p
      → p < stop
      → n ≡ min 64 (stop - p)
      → Holds s w p
      → (s' : S) × (Sectors.read_sectors desk.link p n s ≡ (ok (content p n), s'))
        × Holds s' w (p + n)
  pub appends :
      (s : S) (w d : Bytes) (p : ℕ)
      → Holds s w p
      → (s' : S) × (desk.append_file path d s ≡ (ok tt, s')) × Holds s' (w ++ d) p
  pub calm : (s : S) → desk.is_cancelled s ≡ (false, s)

-- The sectors of a card, each of 512 bytes.
pub record IsContent (content : ℕ → ℕ → Bytes) : Type 0 where
  pub sized : (lba n : ℕ) → length (content lba n) ≡ n * 512
  pub joined : (lba n m : ℕ) → content lba (n + m) ≡ content lba n ++ content (lba + n) m

nil_of : (d : Bytes) → length d ≡ 0 → d ≡ []
nil_of [] h = refl
nil_of (x ∷ d) h = absurd (omega arith)

-- Below 65536 the count is not cut.
next_count-min : (n : ℕ) → n < 65536 → next_count n ≡ min 64 n
unfolding next_count safe_read_chunk
next_count-min n h = omega arith

module _ {S A B : Type 0} where
  attempt-ok :
      (m : Action S A) (failed : Error → Task S B) (rest : A → Task S B) (a : A) (s s' : S)
      → m s ≡ (ok a, s')
      → attempt m failed rest s ≡ rest a s'
  unfolding attempt
  attempt-ok m failed rest a s s' e = ap (λ r. resume r.0 failed rest r.1) e

module _ {S A : Type 0} where
  with_retry-ok :
      (n : ℕ) (f : Action S A) (a : A) (s s' : S) → f s ≡ (ok a, s') → with_retry n f s ≡ (ok a, s')
  unfolding with_retry
  with_retry-ok zero f a s s' e = e
  with_retry-ok (suc n) f a s s' e = rw e refl

module _ {S : Type 0} (desk : Desk S) (port : Bytes) (baud : ℕ) (path : Bytes)
    (content : ℕ → ℕ → Bytes) (c : IsContent content) (start_lba total : ℕ)
    (d : IsDumping desk port baud path content start_lba (start_lba + total)) where
  -- What a part of the thread comes to: it sends some messages and goes on with `rest`.
  record GoesOn (r : Report S Unit) (rest : Task S Unit) (w : Bytes) (p : ℕ) : Type 0 where
    at : S
    before : List WorkerMessage
    ends : r.outcome ≡ (rest at).outcome
    leaves : r.after ≡ (rest at).after
    says : r.sent ≡ before ++ (rest at).sent
    holds : d.Holds at w p

  after_send :
      (x : WorkerMessage) (m rest : Task S Unit) (s : S) (w : Bytes) (p : ℕ)
      → GoesOn (m s) rest w p
      → GoesOn (send x m s) rest w p
  unfolding send
  after_send x m rest s w p g = record {
    at = g.at;
    before = x ∷ g.before;
    ends = g.ends;
    leaves = g.leaves;
    says = ap (λ (l : List WorkerMessage). x ∷ l) g.says;
    holds = g.holds;
  }

  after_attempt :
      {A : Type 0} (m : Action S A) (failed : Error → Task S Unit) (next : A → Task S Unit) (a : A)
      (rest : Task S Unit) (s s' : S) (w : Bytes) (p : ℕ)
      → m s ≡ (ok a, s')
      → GoesOn (next a s') rest w p
      → GoesOn (attempt m failed next s) rest w p
  after_attempt m failed next a rest s s' w p e g =
      subst (λ r. GoesOn r rest w p) (sym (attempt-ok m failed next a s s' e)) g

  after_calm :
      (stopped pass rest : Task S Unit) (s : S) (w : Bytes) (p : ℕ)
      → GoesOn (pass s) rest w p
      → GoesOn (unless_cancelled desk stopped pass s) rest w p
  unfolding unless_cancelled
  after_calm stopped pass rest s w p g = rw (d.calm s) g

  completed :
      (r : Report S Unit) (x : WorkerMessage) (w : Bytes) (p : ℕ)
      → GoesOn r (send x (pure tt)) w p
      → (r.outcome ≡ ok tt)
        × d.Holds r.after w p
        × (before : List WorkerMessage) × (r.sent ≡ before ++ x ∷ [])
  unfolding send pure
  completed r x w p g =
      (g.ends, subst (λ s. d.Holds s w p) (sym g.leaves) g.holds, g.before, g.says)

  module _ (rest : ℕ → Task S Unit) (small : total < 65536)
      (fits : start_lba + total < 2 ^ 32) where
    at_end : (offset : ℕ) → total - offset ≤ 0 → offset ≤ total → ltb offset total ≡ false
    at_end offset h k = ground (arith, h, k)

    done : (offset : ℕ) → ltb offset total ≡ false → offset ≤ total → total - offset ≡ 0
    done offset e k = ground (arith, e, k)

    finished :
        (offset bytes : ℕ) (s : S) (w : Bytes)
        → total - offset ≡ 0
        → offset ≤ total
        → d.Holds s w (start_lba + offset)
        → GoesOn
            (rest bytes s)
            (rest (bytes + (total - offset) * 512))
            (w ++ content (start_lba + offset) (total - offset))
            (start_lba + total)
    finished offset bytes s w e k holds =
        let same : bytes + (total - offset) * 512 ≡ bytes = omega (arith, e) in
        let there : start_lba + total ≡ start_lba + offset = omega (arith, e) in
        rw (there, same, e, nil_of (content (start_lba + offset) 0) (c.sized _ 0), append-nil)
          (record { at = s; before = []; ends = refl; leaves = refl; says = refl; holds = holds })

    dump_loop-Holds :
        (passes offset bytes : ℕ) (s : S) (w : Bytes)
        → total - offset ≤ passes
        → offset ≤ total
        → d.Holds s w (start_lba + offset)
        → GoesOn
            (dump_loop desk passes start_lba total path offset bytes rest s)
            (rest (bytes + (total - offset) * 512))
            (w ++ content (start_lba + offset) (total - offset))
            (start_lba + total)
    unfolding dump_loop
    dump_loop-Holds zero offset bytes s w h k holds =
        rw (at_end offset h k) (finished offset bytes s w (omega arith) k holds)
    dump_loop-Holds (suc passes) offset bytes s w h k holds = elim (Bool-cases (ltb offset total)) [
      | inl e ↦
          let n = next_count (total - offset) in
          let l : offset < total = ltb→lt _ _ e in
          let count = next_count-min (total - offset) (omega (arith, small)) in
          let (s1, e1, h1) =
            d.reads s w (start_lba + offset) n (omega arith) (omega arith) (omega (arith, count))
              holds in
          let (s2, e2, h2) =
            d.appends s1 w (content (start_lba + offset) n) (start_lba + offset + n) h1 in
          let there : start_lba + (offset + n) ≡ start_lba + offset + n = omega arith in
          let ih =
            dump_loop-Holds passes (offset + n) (bytes + n * 512) s2
              (w ++ content (start_lba + offset) n) (omega (arith, count)) (omega (arith, count))
              (rw there h2) in
          let lba : u32 (start_lba + offset) ≡ start_lba + offset = omega arith in
          let all : n + (total - (offset + n)) ≡ total - offset = omega (arith, count) in
          let sum : bytes + n * 512 + (total - (offset + n)) * 512
              ≡ bytes + (total - offset) * 512 =
            omega (arith, all) in
          let whole : w
                ++ content (start_lba + offset) n
                ++ content (start_lba + (offset + n)) (total - (offset + n))
              ≡ w ++ content (start_lba + offset) (total - offset) =
            append_assoc w _ _
            ∙ ap (λ (t : Bytes). w ++ t)
                (ap (λ x. content (start_lba + offset) n ++ content x (total - (offset + n))) there
                  ∙ sym (c.joined (start_lba + offset) n (total - (offset + n)))
                  ∙ ap (content (start_lba + offset)) all) in
          let size = c.sized (start_lba + offset) n in
          rw (e, lba)
            (after_calm _ _ _ s _ _ (
              after_attempt _ _ _ _ _ s s1 _ _ (with_retry-ok 3 _ _ s s1 e1) (
                after_attempt _ _ _ _ _ s1 s2 _ _ e2
                  (after_send _ _ _ s2 _ _ (rw size (rw (sum, whole) at ih))))))
      | inr e ↦ rw e (finished offset bytes s w (done offset e k) k holds)
    ]

  -- On a machine on which nothing fails, a dump of fewer than 65536 sectors, with addresses below
  -- 2^32 and without verification, comes to its end: the file then holds just the sectors of the
  -- card from the address on, and the last message tells their size.
  pub dump_to_file-Holds :
      (s : S)
      → total < 65536
      → start_lba + total < 2 ^ 32
      → let r = dump_to_file desk port baud start_lba total path false s in
        (r.outcome ≡ ok tt)
        × d.Holds r.after (content start_lba total) (start_lba + total)
        × (before : List WorkerMessage) × (r.sent
            ≡ before ++ dump_completed (total * 512) path ∷ [])
  unfolding dump_to_file on_connection
  dump_to_file-Holds s small fits =
      let (s1, e1) = d.opens s in
      let (s2, e2, h2) = d.creates s1 in
      let done : ℕ → Task S Unit =
        λ total_bytes. send (dump_completed total_bytes path) (pure tt) in
      let plus : start_lba + 0 ≡ start_lba = omega arith in
      let minus : total - 0 ≡ total = omega arith in
      let zero_plus : 0 + total * 512 ≡ total * 512 = omega arith in
      let looped =
        dump_loop-Holds done small fits total 0 0 s2 [] (omega arith) (omega arith) (rw plus h2) in
      let g =
        after_attempt _ _ _ _ _ s s1 _ _ e1
          (after_attempt _ _ _ _ _ s1 s2 _ _ e2 (rw (plus, minus, zero_plus) at looped)) in
      completed _ _ _ _ g
