-- ===== src/Engine/Hex/History.antt =====
-- What the two stacks of the hex editor mean, and that every operation keeps it.
use fpga_emmc_card_reader.Base.{
  ℕ, zero, suc, ◌<◌, [], ◌∷◌, List, ◌≡◌, ◌≢◌, refl, sym, ap, ◌∙◌, subst, arith, Bool, true, false,
  not, ◌&&◌, ◌==◌, ltb, lt→ltb, ltb→lt, ==-self, Bool-cases, inl, inr, length, length-set, set,
  Bytes, byte_at, Outcome, ok,
}
use fpga_emmc_card_reader.Base.Try.{◌>>=◌}
use fpga_emmc_card_reader.Engine.Hex.{
  HexEdit, HexState, hex_apply_edit, hex_undo, hex_redo, taken_back, done_again, store, undo_top,
  redo_top, insert,
}

-- What `xs[i]` held before a write comes back with it.
set_back : (xs : Bytes) (i v w : ℕ) → byte_at xs i ≡ v → set (set xs i w) i v ≡ xs
set_back [] i v w h = refl
set_back (x ∷ xs) zero v w h = ap (λ (t : ℕ). t ∷ xs) (sym h)
set_back (x ∷ xs) (suc i) v w h = ap (◌∷◌ x) (set_back xs i v w h)

byte_at-set : (xs : Bytes) (i v : ℕ) → i < length xs → byte_at (set xs i v) i ≡ v
byte_at-set [] i v h = absurd (omega arith)
byte_at-set (x ∷ xs) zero v h = refl
byte_at-set (x ∷ xs) (suc i) v h = byte_at-set xs i v (omega arith)

-- Taking the edits of the undo stack back, one after the other, leads to the bytes `first`.
abbrev pub Back : Bytes → List HexEdit → Bytes → Type 0
Back first [] d = d ≡ first
Back first (e ∷ es) d =
    (e.offset < length d)
    × (byte_at d e.offset ≡ e.new_value)
    × Back first es (set d e.offset e.old_value)

-- The edits of the redo stack can be done again, one after the other.
abbrev pub Forth : List HexEdit → Bytes → Type 0
Forth [] d = Unit
Forth (e ∷ es) d =
    (e.offset < length d)
    × (byte_at d e.offset ≡ e.old_value)
    × Forth es (set d e.offset e.new_value)

pub record History (first : Bytes) (s : HexState) : Type 0 where
  pub back : Back first s.hex_undo_stack s.hex_data
  pub forth : Forth s.hex_redo_stack s.hex_data

store_ok : (d : Bytes) (i v : ℕ) → i < length d → store d i v ≡ ok (set d i v)
store_ok d i v h = rw (lt→ltb i (length d) h)

store_then :
    (d : Bytes) (i v : ℕ) (f : Bytes → HexState)
    → i < length d
    → (store d i v >>= λ d'. ok (f d')) ≡ ok (f (set d i v))
store_then d i v f h = ap (λ (r : Outcome Bytes). r >>= λ d'. ok (f d')) (store_ok d i v h)

module _ (first : Bytes) where
  edit-History :
      (offset value : ℕ) (s : HexState)
      → History first s
      → History first (hex_apply_edit offset value s)
  unfolding hex_apply_edit
  edit-History offset value s h =
      elim (Bool-cases
        (ltb offset (length s.hex_data) && not (byte_at s.hex_data offset == value))) [
          | inl e ↦ rw e (record {
            back = (
              subst (λ n. offset < n) (sym (length-set s.hex_data offset value)) (inside _ e),
              byte_at-set s.hex_data offset value (inside _ e),
              subst (Back first s.hex_undo_stack) (sym (set_back s.hex_data offset _ value refl))
                  h.back,
            );
            forth = tt;
          })
          | inr e ↦ rw e h
        ]
    where
      inside :
          (b : Bool) → (ltb offset (length s.hex_data) && b) ≡ true → offset < length s.hex_data
      inside b e = elim (Bool-cases (ltb offset (length s.hex_data))) [
        | inl l ↦ ltb→lt _ _ l
        | inr l ↦ cc
      ]

  undo_top-History :
      (edits : List HexEdit) (s : HexState)
      → Back first edits s.hex_data
      → Forth s.hex_redo_stack s.hex_data
      → s.hex_undo_stack ≡ edits
      → (s' : HexState) × (undo_top edits s ≡ ok s') × History first s'
  undo_top-History [] s b f e =
      (s, refl, record { back = subst (λ es. Back first es s.hex_data) (sym e) b; forth = f })
  undo_top-History (edit ∷ rest) s b f e = (
    _,
    store_then s.hex_data edit.offset edit.old_value (taken_back edit rest s) b.0,
    record {
      back = b.2;
      forth = (
        subst (λ n. edit.offset < n) (sym (length-set s.hex_data edit.offset edit.old_value)) b.0,
        byte_at-set s.hex_data edit.offset edit.old_value b.0,
        subst (Forth s.hex_redo_stack)
            (sym (set_back s.hex_data edit.offset edit.new_value edit.old_value b.1)) f,
      );
    },
  )

  redo_top-History :
      (edits : List HexEdit) (s : HexState)
      → Back first s.hex_undo_stack s.hex_data
      → Forth edits s.hex_data
      → s.hex_redo_stack ≡ edits
      → (s' : HexState) × (redo_top edits s ≡ ok s') × History first s'
  redo_top-History [] s b f e =
      (s, refl, record { back = b; forth = subst (λ es. Forth es s.hex_data) (sym e) f })
  redo_top-History (edit ∷ rest) s b f e = (
    _,
    store_then s.hex_data edit.offset edit.new_value (done_again edit rest s) f.0,
    record {
      back = (
        subst (λ n. edit.offset < n) (sym (length-set s.hex_data edit.offset edit.new_value)) f.0,
        byte_at-set s.hex_data edit.offset edit.new_value f.0,
        subst (Back first s.hex_undo_stack)
            (sym (set_back s.hex_data edit.offset edit.old_value edit.new_value f.1)) b,
      );
      forth = f.2;
    },
  )

-- What the user can do.
pub data Step : Type 0 where
  edit : (offset value : ℕ) → Step
  undo redo : Step

abbrev pub perform : Step → HexState → Outcome HexState
unfolding hex_undo hex_redo
perform (edit offset value) s = ok (hex_apply_edit offset value s)
perform undo s = hex_undo s
perform redo s = hex_redo s

abbrev pub perform_all : List Step → HexState → Outcome HexState
perform_all [] s = ok s
perform_all (step ∷ steps) s = perform step s >>= perform_all steps

-- Freshly loaded data, with nothing changed.
abbrev pub loaded : Bytes → HexState
loaded d = record {
  hex_data = d;
  hex_modified = λ _. false;
  hex_undo_stack = [];
  hex_redo_stack = [];
}

perform-History :
    (first : Bytes) (step : Step) (s : HexState)
    → History first s
    → (s' : HexState) × (perform step s ≡ ok s') × History first s'
unfolding hex_undo hex_redo
perform-History first (edit offset value) s h = (_, refl, edit-History first offset value s h)
perform-History first undo s h = undo_top-History first s.hex_undo_stack s h.back h.forth refl
perform-History first redo s h = redo_top-History first s.hex_redo_stack s h.back h.forth refl

perform_all-from :
    (first : Bytes) (steps : List Step) (s : HexState)
    → History first s
    → (s' : HexState) × (perform_all steps s ≡ ok s') × History first s'
perform_all-from first [] s h = (s, refl, h)
perform_all-from first (step ∷ steps) s h =
    let (t, e, k) = perform-History first step s h in
    let (s', e', k') = perform_all-from first steps t k in (s', rw e e', k')

-- After any edits, undos and redos from freshly loaded data the editor has not panicked, the edits
-- left on the undo stack lead back to the loaded data, and those on the redo stack apply.
pub perform_all-History :
    (first : Bytes) (steps : List Step)
    → (s : HexState) × (perform_all steps (loaded first) ≡ ok s) × History first s
perform_all-History first steps =
    perform_all-from first steps (loaded first) (record { back = refl; forth = tt })

-- An edit that changes a byte, taken back: the bytes and the undo stack are as before, and the
-- place keeps its mark of a change.
pub hex_undo-hex_apply_edit :
    (offset value : ℕ) (s : HexState)
    → offset < length s.hex_data
    → byte_at s.hex_data offset ≢ value
    → (s' : HexState) × (hex_undo (hex_apply_edit offset value s) ≡ ok s')
      × (s'.hex_data ≡ s.hex_data)
      × (s'.hex_undo_stack ≡ s.hex_undo_stack)
      × (s'.hex_modified offset ≡ true)
unfolding hex_undo
hex_undo-hex_apply_edit offset value s inside ne =
    let old = byte_at s.hex_data offset in
    let changed : (old == value) ≡ false = ground arith in
    let long = subst (λ n. offset < n) (sym (length-set s.hex_data offset value)) inside in
    let edit' : HexEdit = record { offset = offset; old_value = old; new_value = value } in
    let edited = set s.hex_data offset value in
    let after : HexState = record {
      hex_data = edited;
      hex_modified = insert offset s.hex_modified;
      hex_undo_stack = edit' ∷ s.hex_undo_stack;
      hex_redo_stack = [];
    } in
    let does : hex_apply_edit offset value s ≡ after =
      unfold hex_apply_edit in rw (lt→ltb _ _ inside, changed) in
    (
      taken_back edit' s.hex_undo_stack after (set edited offset old),
      ap hex_undo does
          ∙ store_then edited offset old (taken_back edit' s.hex_undo_stack after) long,
      set_back s.hex_data offset old value refl,
      refl,
      rw (changed, ==-self offset),
    )
