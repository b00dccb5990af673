-- ===== src/Transport/Stream.antt =====
-- What the protocol relies on in a working link: bytes come in the order in which the card reader
-- sends them, none is lost while it is awaited, and what is written goes out in order.
use fpga_emmc_card_reader.Base.{
  ℕ, [], ◌∷◌, ◌++◌, ◌≡◌, refl, length, Bytes, Outcome, ok, err, Error, Action, ◌>>=◌, pure,
  continue, Bool, true, false, if◌then◌else◌, ensure, subst, sym, ◌∙◌, ap,
}
use fpga_emmc_card_reader.Transport.{Transport}

pub record IsStream {S : Type 0} (t : Transport S) : Type 1 where
  -- In this state these bytes will come, in the run at hand, and those have gone out.
  pub At : S → Bytes → Bytes → Type 0
  pub read_one :
      (s : S) (b : ℕ) (rest o : Bytes)
      → At s (b ∷ rest) o
      → (s' : S) × (t.read 1 s ≡ (ok (b ∷ []), s')) × At s' rest o
  pub read_exact_lem :
      (s : S) (xs rest o : Bytes)
      → At s (xs ++ rest) o
      → (s' : S) × (t.read_exact (length xs) s ≡ (ok xs, s')) × At s' rest o
  pub write_all_lem :
      (s : S) (d i o : Bytes)
      → At s i o
      → (s' : S) × (t.write_all d s ≡ (ok tt, s')) × At s' i (o ++ d)
  pub flush_lem :
      (s : S) (i o : Bytes) → At s i o → (s' : S) × (t.flush s ≡ (ok tt, s')) × At s' i o

module _ {S : Type 0} {t : Transport S} (d : IsStream t) where
  -- Started where `i` is to come and `o` has gone out, `m` ends with `r`, where `i'` is to come
  -- and `o'` has gone out.
  pub record Run {A : Type 0} (m : Action S A) (i o : Bytes) (r : Outcome A) (i' o' : Bytes)
      : Type 0 where
    pub run : (s : S) → d.At s i o → (s' : S) × (m s ≡ (r, s')) × d.At s' i' o'

  pub Run-pure : {A : Type 0} (a : A) (i o : Bytes) → Run (pure a) i o (ok a) i o
  Run-pure a i o = record { run = λ s h. (s, refl, h) }

  pub Run-outcome : {A : Type 0} (r : Outcome A) (i o : Bytes) → Run (λ s. (r, s)) i o r i o
  Run-outcome r i o = record { run = λ s h. (s, refl, h) }

  pub Run-read : (b : ℕ) (rest o : Bytes) → Run (t.read 1) (b ∷ rest) o (ok (b ∷ [])) rest o
  Run-read b rest o = record { run = λ s h. d.read_one s b rest o h }

  pub Run-read_exact :
      (xs rest o : Bytes) → Run (t.read_exact (length xs)) (xs ++ rest) o (ok xs) rest o
  Run-read_exact xs rest o = record { run = λ s h. d.read_exact_lem s xs rest o h }

  pub Run-read_exact_of_length :
      (n : ℕ) (xs rest o : Bytes)
      → length xs ≡ n
      → Run (t.read_exact n) (xs ++ rest) o (ok xs) rest o
  Run-read_exact_of_length n xs rest o h =
      subst (λ k. Run (t.read_exact k) (xs ++ rest) o (ok xs) rest o) h (Run-read_exact xs rest o)

  pub Run-write_all : (data' i o : Bytes) → Run (t.write_all data') i o (ok tt) i (o ++ data')
  Run-write_all data' i o = record { run = λ s h. d.write_all_lem s data' i o h }

  pub Run-flush : (i o : Bytes) → Run t.flush i o (ok tt) i o
  Run-flush i o = record { run = λ s h. d.flush_lem s i o h }

  -- A step that returns, and the rest of the block after it.
  pub Run-bind :
      {A B : Type 0} {m : Action S A} {a : A} {r : Outcome B} {i o i' o' i'' o'' : Bytes}
      (f : A → Action S B)
      → Run m i o (ok a) i' o'
      → Run (f a) i' o' r i'' o''
      → Run (m >>= f) i o r i'' o''
  Run-bind f first rest = record {
    run = λ s h.
        let (s', e, h') = first.run s h in
        let (s'', e', h'') = rest.run s' h' in (s'', ap (λ x. continue x.0 f x.1) e ∙ e', h'');
  }

  -- A step that fails ends the block.
  pub Run-bind_err :
      {A B : Type 0} {m : Action S A} (f : A → Action S B) {e : Error} {i o i' o' : Bytes}
      → Run m i o (err e) i' o'
      → Run (m >>= f) i o (err e) i' o'
  Run-bind_err f first = record {
    run = λ s h. let (s', e, h') = first.run s h in (s', ap (λ x. continue x.0 f x.1) e, h');
  }

  -- A test whose result is known.
  pub Run-then :
      {A : Type 0} {m : Action S A} {r : Outcome A} {i o i' o' : Bytes} (n : Action S A) (b : Bool)
      → b ≡ true
      → Run m i o r i' o'
      → Run (if b then m else n) i o r i' o'
  Run-then n true h k = k
  Run-then n false h k = cc

  pub Run-else :
      {A : Type 0} {n : Action S A} {r : Outcome A} {i o i' o' : Bytes} (m : Action S A) (b : Bool)
      → b ≡ false
      → Run n i o r i' o'
      → Run (if b then m else n) i o r i' o'
  Run-else m true h k = cc
  Run-else m false h k = k

  -- A check and a value behind it.
  pub Run-ensure :
      {A : Type 0} (b : Bool) (e : Error) (a : A) (i o : Bytes)
      → Run (ensure b e >>= λ _. pure a) i o (if b then ok a else err e) i o
  Run-ensure true e a i o = Run-pure a i o
  Run-ensure false e a i o = Run-outcome (err e) i o

  -- The same run, with the bytes to come and the result spelled otherwise.
  pub Run-respell :
      {A : Type 0} {m : Action S A} {r r' : Outcome A} {i j o i' o' : Bytes}
      → i ≡ j
      → r ≡ r'
      → Run m j o r' i' o'
      → Run m i o r i' o'
  Run-respell {o = o} p q h = record {
    run = λ s e.
        let (s', x, y) = h.run s (subst (λ w. d.At s w o) p e) in
        (s', x ∙ ap (λ v. (v, s')) (sym q), y);
  }

  -- The same run, with what has gone out in the end spelled otherwise.
  pub Run-sent :
      {A : Type 0} {m : Action S A} {r : Outcome A} {i o i' o' o'' : Bytes}
      → o' ≡ o''
      → Run m i o r i' o'
      → Run m i o r i' o''
  Run-sent {m = m} {r = r} {i = i} {o = o} {i' = i'} e h = subst (λ w. Run m i o r i' w) e h
