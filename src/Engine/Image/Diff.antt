-- ===== src/Engine/Image/Diff.antt =====
-- Two images without a differing sector are the same.
use fpga_emmc_card_reader.Base.{
  ℕ, zero, suc, ◌+◌, ◌-◌, ◌*◌, ◌/◌, ◌≤◌, min, max, [], ◌∷◌, ◌++◌, List, ◌≡◌, ◌↔◌, refl, sym, ap,
  ap₂, ◌∙◌, subst, arith, Bool-cases, inl, inr, ltb, length, length-drop, take, drop, take-min,
  take-append-drop, drop-drop, drop_all, Bytes, same_bytes, same_bytes-eq, same_bytes_self,
}
use fpga_emmc_card_reader.Engine.Image.{DiffEntry, part_of, diff_from, diff_slices}

-- A part is 512 bytes from its start on, or what there is of them.
part_of-take : (d : Bytes) (start : ℕ) → part_of d start ≡ take 512 (drop start d)
unfolding part_of
part_of-take d start = elim (Bool-cases (ltb start (length d))) [
  | inl e ↦
      let bound : min (start + 512) (length d) - start ≡ min 512 (length (drop start d)) =
        omega (arith, length-drop start d) in
      rw (e, bound) (take-min 512 (drop start d))
  | inr e ↦ rw e (sym (ap (take 512) (drop_all start d (ground arith))))
]

diff_from-same : (n sector : ℕ) (d : Bytes) → diff_from n sector d d ≡ []
unfolding diff_from
diff_from-same zero sector d = refl
diff_from-same (suc n) sector d =
    rw (same_bytes_self (part_of d (sector * 512))) (diff_from-same n (sector + 1) d)

-- What lies behind the start of a sector is the same, if the sectors from there on are.
diff_from-drop :
    (n sector : ℕ) (a b : Bytes)
    → diff_from n sector a b ≡ []
    → length a ≤ (sector + n) * 512
    → length b ≤ (sector + n) * 512
    → drop (sector * 512) a ≡ drop (sector * 512) b
unfolding diff_from
diff_from-drop zero sector a b h l m =
    drop_all (sector * 512) a (omega arith) ∙ sym (drop_all (sector * 512) b (omega arith))
diff_from-drop (suc n) sector a b h l m =
    elim (Bool-cases (same_bytes (part_of a (sector * 512)) (part_of b (sector * 512)))) [
      | inl e ↦
          let here =
            sym (part_of-take a (sector * 512))
            ∙ (same_bytes-eq _ _ e ∙ part_of-take b (sector * 512)) in
          let later = diff_from-drop n (sector + 1) a b (rw e at h) (omega arith) (omega arith) in
          let next : sector * 512 + 512 ≡ (sector + 1) * 512 = omega arith in
          sym (take-append-drop 512 (drop (sector * 512) a))
          ∙ (ap₂ (λ (x y : Bytes). x ++ y) here
                (drop-drop 512 (sector * 512) ((sector + 1) * 512) a next
                  ∙ (later ∙ sym (drop-drop 512 (sector * 512) ((sector + 1) * 512) b next)))
              ∙ take-append-drop 512 (drop (sector * 512) b))
      | inr e ↦ absurd (cons_nil (rw e at h))
    ]
  where
    cons_nil : {x : DiffEntry} {xs : List DiffEntry} → x ∷ xs ≡ [] → ⊥
    cons_nil e = cc

-- Two images, of whatever lengths, have no differing sector exactly if they are the same.
pub diff_slices-nil_iff : (a b : Bytes) → (diff_slices a b ≡ []) ↔ (a ≡ b)
unfolding diff_slices
diff_slices-nil_iff a b = (
  (λ h.
      diff_from-drop ((max (length a) (length b) + 511) / 512) 0 a b h (omega arith) (omega arith)),
  (λ e. subst (λ (y : Bytes). diff_slices a y ≡ []) e (diff_from-same _ 0 a)),
)
