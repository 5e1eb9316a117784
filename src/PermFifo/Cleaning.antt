-- ===== src/PermFifo/Cleaning.antt =====
-- How the loop of `permFIFO_file_clean` of src/permanentFIFO.c ends, whatever calls fail.
use info_logger.Base.{
  ℕ, suc, ◌≡◌, ◌⊎◌, refl, sym, ap, subst, ◌∙◌, Bool, true, false, List, [], ◌∷◌, some, none, inl,
  inr, ltb, ◌==◌, if◌then◌else◌, ℤ, pos, Bool-cases, Option-cases,
}
use info_logger.CircularTable.{succeeded}
use info_logger.FifoFile.{Block, good, short_data, bad_tag, short_header, FifoFile}
use info_logger.FifoFile.Clean.{
  Disk, Content, fifo, no_bytes, short_main, bad_main, file_clean, retry, clean_named, clean_old,
  clean_content, clean_file, numbered_disk, number_file, copy_file, start_new, copy_items,
  number_new, replace_file, start_blank, copy_blocks, skip_acked, last_id, found, failed, Turn,
  done, again, Calls, Written, whole, nothing, a_part, Rewritten, renewed, spoilt,
}

-- A cleaning failed, or a FIFO file is there.
abbrev pub Settled : ℤ × Disk → Type 0
Settled r = (succeeded r.0 ≡ false) ⊎ ((file : FifoFile) × (r.1.current ≡ some (fifo file)))

-- A turn that ends the loop.
abbrev Ends : Turn → Type 0
Ends t = (r : ℤ × Disk) × (t ≡ done r.0 r.1) × Settled r

last_id-failed :
    (bs : List Block) (id : ℕ)
    → ((code : ℤ) × (last_id bs id ≡ failed code) × (succeeded code ≡ false))
      ⊎ ((k : ℕ) × (last_id bs id ≡ found k))
unfolding last_id
last_id-failed [] id = inr (id, refl)
last_id-failed (good k b ∷ bs) id = last_id-failed bs k
last_id-failed (short_data k ∷ bs) id = last_id-failed bs k
last_id-failed (bad_tag ∷ bs) id = inl (pos 32, refl, refl)
last_id-failed (short_header ∷ bs) id = inl (pos 31, refl, refl)

skip_acked-failed :
    (bs : List Block) (ack : ℕ)
    → ((code : ℤ) × (skip_acked bs ack ≡ failed code) × (succeeded code ≡ false))
      ⊎ ((cs : List Block) × (skip_acked bs ack ≡ found cs))
unfolding skip_acked
skip_acked-failed [] ack = inr ([], refl)
skip_acked-failed (good k b ∷ bs) ack = elim (Bool-cases (ltb ack k)) [
  | inl e ↦ inr (good k b ∷ bs, rw e refl)
  | inr e ↦ rw e (skip_acked-failed bs ack)
]
skip_acked-failed (short_data k ∷ bs) ack = elim (Bool-cases (ltb ack k)) [
  | inl e ↦ inr (short_data k ∷ bs, rw e refl)
  | inr e ↦ rw e (skip_acked-failed bs ack)
]
skip_acked-failed (bad_tag ∷ bs) ack = inl (pos 51, refl, refl)
skip_acked-failed (short_header ∷ bs) ack = inl (pos 50, refl, refl)

done-Ends : (code : ℤ) (d : Disk) → Settled (code, d) → Ends (done code d)
done-Ends code d s = ((code, d), refl, s)

either-Ends :
    (b : Bool) (x y : Turn) → (b ≡ true → Ends x) → (b ≡ false → Ends y) → Ends (if b then x else y)
either-Ends true x y h k = h refl
either-Ends false x y h k = k refl

pub then_of {ℓ} : {A : Type ℓ} (b : Bool) (x y : A) → b ≡ true → (if b then x else y) ≡ x
then_of true x y h = refl
then_of false x y h = cc h

else_of {ℓ} : {A : Type ℓ} (b : Bool) (x y : A) → b ≡ false → (if b then x else y) ≡ y
else_of true x y h = cc h
else_of false x y h = refl

-- An early return.
fails-Ends : (code : ℤ) (d : Disk) → succeeded code ≡ false → Ends (done code d)
fails-Ends code d e = done-Ends code d (inl e)

replace_file-Ends : (c : Calls) (f : FifoFile) (d : Disk) → Ends (replace_file c f d)
unfolding replace_file
replace_file-Ends c f d =
    either-Ends c.moves_away _ _
      (λ e.
        either-Ends c.moves_new _ _
          (λ e.
            either-Ends c.removes_old _ _ (λ e. done-Ends (pos 0) _ (inr (f, refl)))
              (λ e. fails-Ends (pos 17) _ refl))
          (λ e. fails-Ends (pos 16) _ refl))
      (λ e. fails-Ends (pos 15) _ refl)

number_new-Ends :
    (r : Rewritten) (c : Calls) (id : ℕ) (out : List Block) (d : Disk)
    → Ends (number_new r c id out d)
unfolding number_new
number_new-Ends renewed c id out d = replace_file-Ends c _ d
number_new-Ends (spoilt k) c id out d =
    either-Ends (id == 0) _ _ (λ e. replace_file-Ends c _ d) (λ e. fails-Ends (pos 42) _ refl)

copy_items-Ends : (c : Calls) (bs : List Block) (d : Disk) → Ends (copy_items c bs d)
unfolding copy_items
copy_items-Ends c bs d =
    let r = copy_blocks c.writes_item bs 0 [] in
    either-Ends (succeeded r.0) _ _ (λ e. number_new-Ends c.renumbers_new c r.1 r.2 d)
      (λ e. fails-Ends r.0 _ e)

copy_file-Ends : (c : Calls) (bs : List Block) (d : Disk) → Ends (copy_file c bs d)
unfolding copy_file start_new
copy_file-Ends c bs d =
    either-Ends c.creates_new _ _ (λ e. start_new-Ends c.writes_new_main)
      (λ e. fails-Ends (pos 7) _ refl)
  where
    start_new-Ends : (w : Written) → Ends (start_new w c bs d)
    start_new-Ends whole = copy_items-Ends c bs d
    start_new-Ends nothing = fails-Ends (pos 8) _ refl
    start_new-Ends a_part = fails-Ends (pos 8) _ refl

numbered_file :
    (f : FifoFile) (d : Disk) (k : ℕ)
    → d.current ≡ some (fifo f)
    → Settled (pos 0, numbered_disk f d k)
numbered_file f d k h = elim (Bool-cases (k == 0)) [
  | inl e ↦ rw e (inr (f, h))
  | inr e ↦ rw e (inr (_, refl))
]

number_file-Ends :
    (r : Rewritten) (f : FifoFile) (d : Disk) (k : ℕ)
    → d.current ≡ some (fifo f)
    → Ends (number_file r f d k)
unfolding number_file
number_file-Ends renewed f d k h = done-Ends (pos 0) (numbered_disk f d k) (numbered_file f d k h)
number_file-Ends (spoilt n) f d k h =
    either-Ends (k == 0) _ _ (λ e. done-Ends (pos 0) d (inr (f, h)))
      (λ e. fails-Ends (pos 36) _ refl)

clean_file-Ends :
    (c : Calls) (f : FifoFile) (d : Disk) → d.current ≡ some (fifo f) → Ends (clean_file c f d)
unfolding clean_file
clean_file-Ends c f d h =
    either-Ends (f.header.last_ack_id == 0) _ _
      (λ e. elim (last_id-failed f.blocks 0) [
        | inl (code, l, bad) ↦ rw l (fails-Ends code d bad)
        | inr (k, l) ↦ rw l (number_file-Ends c.renumbers f d k h)
      ])
      (λ e. elim (skip_acked-failed f.blocks f.header.last_ack_id) [
        | inl (code, l, bad) ↦ rw l (fails-Ends code d bad)
        | inr (bs, l) ↦ rw l (copy_file-Ends c bs d)
      ])

-- What an opened file leads to: the file is removed, or the loop ends.
clean_content-Ends :
    (c : Calls) (x : Content) (d : Disk)
    → d.current ≡ some x
    → (x ≡ no_bytes) ⊎ Ends (clean_content c x d)
unfolding clean_content
clean_content-Ends c no_bytes d h = inl refl
clean_content-Ends c short_main d h = inr (fails-Ends (pos 5) _ refl)
clean_content-Ends c bad_main d h = inr (fails-Ends (pos 6) _ refl)
clean_content-Ends c (fifo f) d h =
    inr (clean_file-Ends c f (record d { old = none; new_ = none }) h)

-- What the loop does when a turn ends it, and when it does not.
module _ (sys : ℕ → Calls) (n : ℕ) where
  pub retry-done :
      (d : Disk) (r : ℤ × Disk)
      → clean_named (sys n) d.current d ≡ done r.0 r.1
      → retry sys (suc n) d ≡ r
  unfolding retry
  retry-done d r e = rw (retry, e) refl

  retry-Ends : (d : Disk) → Ends (clean_named (sys n) d.current d) → Settled (retry sys (suc n) d)
  retry-Ends d (r, e, s) = subst (λ x. Settled x) (sym (retry-done d r e)) s

  retry-again :
      (d d' : Disk)
      → clean_named (sys n) d.current d ≡ again d'
      → retry sys (suc n) d ≡ retry sys n d'
  unfolding retry
  retry-again d d' e = rw (retry, e) refl

  -- Without a file one turn is enough.
  without_file : (d : Disk) → d.current ≡ none → d.old ≡ none → Settled (retry sys (suc n) d)
  unfolding clean_named clean_old start_blank
  without_file d c o = retry-Ends d (
      subst (λ x. Ends (clean_named (sys n) x d)) (sym c)
        (subst (λ x. Ends (clean_old (sys n) x d)) (sym o) none_Ends))
    where
      start_blank-Ends : (w : Written) → Ends (start_blank w d)
      start_blank-Ends whole = done-Ends (pos 0) _ (inr (_, refl))
      start_blank-Ends nothing = fails-Ends (pos 2) _ refl
      start_blank-Ends a_part = fails-Ends (pos 2) _ refl

      none_Ends : Ends (clean_old (sys n) none d)
      none_Ends =
          either-Ends (sys n).creates _ _ (λ e. start_blank-Ends (sys n).writes_main)
            (λ e. fails-Ends (pos 1) d refl)

-- With one, two turns.
with_file :
    (sys : ℕ → Calls) (n : ℕ) (d : Disk) (x : Content)
    → d.current ≡ some x
    → Settled (retry sys (suc (suc n)) d)
unfolding clean_named clean_content
with_file sys n d x h = elim (Bool-cases (sys (suc n)).opens) [
  | inr e ↦ retry-Ends sys (suc n) d (
      subst (λ y. Ends (clean_named (sys (suc n)) y d)) (sym h)
        (subst Ends (sym (else_of _ _ _ e)) (fails-Ends (pos 4) d refl)))
  | inl e ↦ elim (clean_content-Ends (sys (suc n)) x d h) [
    | inr ends ↦ retry-Ends sys (suc n) d (
        subst (λ y. Ends (clean_named (sys (suc n)) y d)) (sym h)
          (subst Ends (sym (then_of _ _ _ e)) ends))
    | inl b ↦
        let d' = record d { current = none; old = none; new_ = none } in
        subst (λ y. Settled y)
          (sym (
            retry-again sys (suc n) d d'
              (ap (λ y. clean_named (sys (suc n)) y d) (h ∙ ap (λ z. some z) b) ∙ then_of _ _ _ e)))
          (without_file sys n d' refl refl)
  ]
]

-- Three turns are enough, whatever calls fail.
pub file_clean-Settled : (sys : ℕ → Calls) (d : Disk) → Settled (file_clean sys d false)
unfolding file_clean clean_named clean_old
file_clean-Settled sys d = elim (Option-cases d.current) [
  | inr (c, h) ↦ with_file sys 1 d c h
  | inl h ↦ elim (Option-cases d.old) [
    | inl o ↦ without_file sys 2 d h o
    | inr (c, o) ↦ elim (Bool-cases (sys 2).renames_old) [
      | inr e ↦ retry-Ends sys 2 d (
          subst (λ x. Ends (clean_named (sys 2) x d)) (sym h)
            (subst (λ x. Ends (clean_old (sys 2) x d)) (sym o)
              (subst Ends (sym (else_of _ _ _ e)) (fails-Ends (pos 3) d refl))))
      | inl e ↦
          let d' = record d { current = some c; old = none } in
          subst (λ x. Settled x)
            (sym (
              retry-again sys 2 d d' (
                ap (λ x. clean_named (sys 2) x d) h
                ∙ (ap (λ x. clean_old (sys 2) x d) o ∙ then_of _ _ _ e))))
            (with_file sys 0 d' c refl)
    ]
  ]
]
