-- ===== src/App/Settling.antt =====
-- Which threads end with a message after which the window is free again.
pub mod Loops
pub mod Jobs
use fpga_emmc_card_reader.Base.{
  ℕ, zero, suc, [], ◌∷◌, ◌++◌, List, Bool, true, false, ◌||◌, Outcome, ok, err, panic, Error,
  Action, ◌≡◌, refl, ◌⊎◌, inl, inr, Bool-cases, if◌then◌else◌, Bytes, String, text,
}
use fpga_emmc_card_reader.App.Message.{
  WorkerMessage, ports_scanned, fifo_devices_scanned, card_info, progress, keepalive_ok, error,
}
use fpga_emmc_card_reader.App.Task.{
  Task, Report, Desk, resume, match_task, attempt, whatever, send, pure, last, fail, on_connection,
  unless_cancelled, cancelled, silent,
}

-- The messages after which an operation is over.
unfoldable pub is_final : WorkerMessage → Bool
is_final (ports_scanned _) = false
is_final (fifo_devices_scanned _ _) = false
is_final (card_info _ _) = false
is_final (progress _) = false
is_final keepalive_ok = false
is_final _ = true

unfoldable pub has_final : List WorkerMessage → Bool
has_final [] = false
has_final (m ∷ ms) = is_final m || has_final ms

abbrev pub IsSettled : {S A : Type 0} → Report S A → Type 0
IsSettled r = (has_final r.sent ≡ true) ⊎ (r.outcome ≡ panic)

-- A thread that sends such a message, or is ended by a panic.
pub record Settles {S A : Type 0} (t : Task S A) : Type 0 where
  pub settled : (s : S) → IsSettled (t s)

or_true : (b : Bool) → b || true ≡ true
or_true true = refl
or_true false = refl

has_final-append : (ms ns : List WorkerMessage) → has_final ns ≡ true → has_final (ms ++ ns) ≡ true
unfolding has_final
has_final-append [] ns h = h
has_final-append (m ∷ ms) ns h = rw (has_final-append ms ns h) (or_true (is_final m))

module _ {S A : Type 0} where
  pub Settles-send_final :
      (m : WorkerMessage) (rest : Task S A) → is_final m ≡ true → Settles (send m rest)
  unfolding send has_final
  Settles-send_final m rest h = record { settled = λ s. inl (rw h refl) }

  pub Settles-send : (m : WorkerMessage) (rest : Task S A) → Settles rest → Settles (send m rest)
  unfolding send has_final
  Settles-send m rest h = record { settled = λ s. after s (h.settled s) }
    where
      after : (s : S) → IsSettled (rest s) → IsSettled (send m rest s)
      after s (inl e) = inl (rw e (or_true (is_final m)))
      after s (inr e) = inr e

  pub Settles-if :
      (b : Bool) (t u : Task S A) → Settles t → Settles u → Settles (if b then t else u)
  Settles-if true t u ht hu = ht
  Settles-if false t u ht hu = hu

pub Settles-last : {S : Type 0} (m : WorkerMessage) → is_final m ≡ true → Settles {S = S} (last m)
unfolding last
Settles-last m h = Settles-send_final m (pure tt) h

pub Settles-fail : {S : Type 0} (what : String) (e : Error) → Settles {S = S} (fail what e)
unfolding fail is_final
Settles-fail what e = Settles-last _ refl

module _ {S A B : Type 0} where
  resumed :
      (r : Outcome A) (failed : Error → Task S B) (rest : A → Task S B) (s : S)
      → ((e : Error) → Settles (failed e))
      → ((a : A) → Settles (rest a))
      → IsSettled (resume r failed rest s)
  resumed (ok a) failed rest s hf hr = (hr a).settled s
  resumed (err e) failed rest s hf hr = (hf e).settled s
  resumed panic failed rest s hf hr = inr refl

  pub Settles-attempt :
      (m : Action S A) (failed : Error → Task S B) (rest : A → Task S B)
      → ((e : Error) → Settles (failed e))
      → ((a : A) → Settles (rest a))
      → Settles (attempt m failed rest)
  unfolding attempt
  Settles-attempt m failed rest hf hr = record {
    settled = λ s. resumed (m s).0 failed rest (m s).1 hf hr;
  }

  pub Settles-match_task :
      (m : Task S A) (failed : Error → Task S B) (rest : A → Task S B)
      → ((e : Error) → Settles (failed e))
      → ((a : A) → Settles (rest a))
      → Settles (match_task m failed rest)
  unfolding match_task
  Settles-match_task m failed rest hf hr = record {
    settled = λ s. later s (resumed (m s).outcome failed rest (m s).after hf hr);
  }
    where
      later :
          (s : S)
          → IsSettled (resume (m s).outcome failed rest (m s).after)
          → IsSettled (match_task m failed rest s)
      later s (inl e) = inl (has_final-append (m s).sent _ e)
      later s (inr e) = inr e

  pub Settles-whatever :
      (m : Action S A) (rest : Task S B) → Settles rest → Settles (whatever m rest)
  unfolding whatever
  Settles-whatever m rest h = Settles-attempt m (λ _. rest) (λ _. rest) (λ _. h) (λ _. h)

module _ {S : Type 0} where
  pub Settles-stuck : {A : Type 0} → Settles {S = S} {A = A} (silent (λ s. (panic, s)))
  unfolding silent
  Settles-stuck = record { settled = λ s. inr refl }

  pub Settles-on_connection :
      (desk : Desk S) (port : Bytes) (baud : ℕ) (rest : Task S Unit)
      → Settles rest
      → Settles (on_connection desk port baud rest)
  unfolding on_connection
  Settles-on_connection desk port baud rest h =
      Settles-attempt _ _ _ (Settles-fail "Connect failed: ") (λ _. h)

  pub Settles-cancelled : Settles {S = S} cancelled
  unfolding cancelled is_final
  Settles-cancelled = Settles-last _ refl

  pub Settles-unless_cancelled :
      (desk : Desk S) (stopped pass : Task S Unit)
      → Settles stopped
      → Settles pass
      → Settles (unless_cancelled desk stopped pass)
  unfolding unless_cancelled
  Settles-unless_cancelled desk stopped pass ht hp = record {
    settled = λ s. decided (desk.is_cancelled s).0 (desk.is_cancelled s).1;
  }
    where
      decided : (b : Bool) (s : S) → IsSettled (if b then stopped s else pass s)
      decided true s = ht.settled s
      decided false s = hp.settled s
