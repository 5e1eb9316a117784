-- ===== src/TransportClient/Released.antt =====
-- The files that the client of src/transport_client.c gives up when the server acknowledges them.
use info_logger.Base.{
  ℕ, ◌-◌, ◌≤◌, ◌<◌, ◌≡◌, refl, sym, ap, ◌∙◌, Bool, true, false, List, [], ◌∷◌, ◌++◌, Option, ◌==◌,
  if◌then◌else◌, length, arith, inl, inr, Bool-cases, lt→ltb, map, append_assoc, append-nil, ℤ,
  length-append,
}
use info_logger.Fifo.Queue
use info_logger.Fifo.Queue.{Queue}
use info_logger.TransportFiles.{TransportFile, file_id_compare}
use info_logger.TransportClient.{is_full}
use info_logger.TransportClient.Replies.{Release, release, is_current}

-- A file is not ahead of the acknowledged one, and is not being sent.
abbrev pub IsDone : Option TransportFile → ℤ → ℤ → TransportFile → Type 0
IsDone current maj min f =
    (file_id_compare f.id.maj_id f.id.min_id maj min ≡ false) × (is_current current f ≡ false)

abbrev pub AllDone : Option TransportFile → ℤ → ℤ → List TransportFile → Type 0
AllDone current maj min [] = true ≡ true
AllDone current maj min (f ∷ fs) = IsDone current maj min f × AllDone current maj min fs

abbrev pub min_ids : List TransportFile → List ℤ
min_ids fs = map (λ f. f.id.min_id) fs

-- The files `gone` are those in front, all acknowledged. With a message queue their numbers are told
-- to it, else they are in the output queue, which keeps its bound.
pub record Released (size : ℕ) (has_messages : Bool) (current : Option TransportFile) (maj min : ℤ)
    (held : List TransportFile) (output : Queue TransportFile) (acked : List ℤ) (index : ℕ)
    (r : Release) : Type 0 where
  pub gone : List TransportFile
  pub in_front : held ≡ gone ++ r.held
  pub all_done : AllDone current maj min gone
  pub counted : r.index ≡ index - length gone
  pub told : r.acked ≡ (if has_messages then acked ++ min_ids gone else acked)
  pub moved : r.output.held ≡ (if has_messages then output.held else output.held ++ gone)
  pub bounded : length r.output.held ≤ size

same_list {ℓ} : {A : Type ℓ} (b : Bool) (xs : List A) → xs ≡ (if b then xs ++ [] else xs)
same_list true xs = sym (append-nil xs)
same_list false xs = refl

same_held {ℓ} : {A : Type ℓ} (b : Bool) (xs : List A) → xs ≡ (if b then xs else xs ++ [])
same_held true xs = refl
same_held false xs = sym (append-nil xs)

module _ (size : ℕ) (current : Option TransportFile) (maj min : ℤ) where
  stay :
      (has_messages : Bool) (held : List TransportFile) (output : Queue TransportFile)
      (acked : List ℤ) (index : ℕ)
      → length output.held ≤ size
      → Released size has_messages current maj min held output acked index
          (record { held = held; output = output; acked = acked; index = index })
  stay has_messages held output acked index h = record {
    gone = [];
    in_front = refl;
    all_done = refl;
    counted = omega arith;
    told = same_list has_messages acked;
    moved = same_held has_messages output.held;
    bounded = h;
  }

  told_message :
      (f : TransportFile) (held : List TransportFile) (output : Queue TransportFile)
      (acked : List ℤ) (index : ℕ) (r : Release)
      → IsDone current maj min f
      → Released size true current maj min held output (acked ++ f.id.min_id ∷ []) (index - 1) r
      → Released size true current maj min (f ∷ held) output acked index r
  told_message f held output acked index r d h = record {
    gone = f ∷ h.gone;
    in_front = ap (λ xs. f ∷ xs) h.in_front;
    all_done = (d, h.all_done);
    counted = omega (arith, h.counted);
    told = h.told ∙ append_assoc acked (f.id.min_id ∷ []) (min_ids h.gone);
    moved = h.moved;
    bounded = h.bounded;
  }

  push_held :
      (f : TransportFile) (output : Queue TransportFile)
      → length output.held < size
      → (Queue.push size output f).1.held ≡ output.held ++ f ∷ []
  push_held f output room = rw (lt→ltb (length output.held) size room) refl

  push_bound :
      (f : TransportFile) (output : Queue TransportFile)
      → length output.held < size
      → length (Queue.push size output f).1.held ≤ size
  push_bound f output room = omega (
    arith,
    ap (λ (xs : List TransportFile). length xs) (push_held f output room),
    length-append output.held (f ∷ []),
    room,
  )

  moved_file :
      (f : TransportFile) (held : List TransportFile) (output : Queue TransportFile)
      (acked : List ℤ) (index : ℕ) (r : Release)
      → IsDone current maj min f
      → length output.held < size
      → Released size false current maj min held (Queue.push size output f).1 acked (index - 1) r
      → Released size false current maj min (f ∷ held) output acked index r
  moved_file f held output acked index r d room h = record {
    gone = f ∷ h.gone;
    in_front = ap (λ xs. f ∷ xs) h.in_front;
    all_done = (d, h.all_done);
    counted = omega (arith, h.counted);
    told = h.told;
    moved =
        h.moved
        ∙ (ap (λ xs. xs ++ h.gone) (push_held f output room)
            ∙ append_assoc output.held (f ∷ []) h.gone);
    bounded = h.bounded;
  }

  removed :
      (has_messages : Bool) (f : TransportFile) (fs : List TransportFile)
      (output : Queue TransportFile) (acked : List ℤ) (index : ℕ)
      → length output.held ≤ size
      → IsDone current maj min f
      → ((o : Queue TransportFile) (a : List ℤ) (i : ℕ)
          → length o.held ≤ size
          → Released size has_messages current maj min fs o a i
              (release size has_messages current maj min fs o a i))
      → Released size has_messages current maj min (f ∷ fs) output acked index (
          if has_messages
          then release size has_messages current maj min fs output
              (acked ++ f.id.min_id ∷ [])
              (index - 1)
          else if is_full size output
          then record { held = f ∷ fs; output = output; acked = acked; index = index }
          else release size has_messages current maj min fs
              (Queue.push size output f).1
              acked
              (index - 1))
  unfolding is_full
  removed true f fs output acked index h d rest =
      told_message f fs output acked index _ d
        (rest output (acked ++ f.id.min_id ∷ []) (index - 1) h)
  removed false f fs output acked index h d rest = elim (Bool-cases (length output.held == size)) [
    | inl e ↦ rw e (stay false (f ∷ fs) output acked index h)
    | inr e ↦
        let room : length output.held < size = ground arith in
        rw e (
          moved_file f fs output acked index _ d room
            (rest (Queue.push size output f).1 acked (index - 1) (push_bound f output room)))
  ]

  pub release-Released :
      (has_messages : Bool) (held : List TransportFile) (output : Queue TransportFile)
      (acked : List ℤ) (index : ℕ)
      → length output.held ≤ size
      → Released size has_messages current maj min held output acked index
          (release size has_messages current maj min held output acked index)
  unfolding release
  release-Released has_messages [] output acked index h = stay has_messages [] output acked index h
  release-Released has_messages (f ∷ fs) output acked index h =
      elim (Bool-cases (is_current current f)) [
        | inl e ↦ rw e (stay has_messages (f ∷ fs) output acked index h)
        | inr e ↦ rw e (elim (Bool-cases (file_id_compare f.id.maj_id f.id.min_id maj min)) [
          | inl k ↦ rw k (stay has_messages (f ∷ fs) output acked index h)
          | inr k ↦ rw k (
              removed has_messages f fs output acked index h (k, e)
                (release-Released has_messages fs))
        ])
      ]
