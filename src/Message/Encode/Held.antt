-- ===== src/Message/Encode/Held.antt =====
-- Buffers with room, in `infoLog_msg_encode` of src/infoLoggerMessage.c: what a write into one leaves.
use info_logger.Base.{
  ℕ, ◌+◌, ◌-◌, ◌<◌, ◌≡◌, refl, sym, ap, false, [], ◌++◌, map, Option, none, some, arith, inl, inr,
  leb, length, take, length-take, length-map, Bool-cases, Option-cases, lt→ltb, append-nil,
  take-append_self, drop-append_self, take-append_add, take-take_le,
}
use info_logger.CText.{Bytes, strchr, strchr-lt}
use info_logger.Message.Encode.{Buffer, append, replace_special, cut_line, put_string, first_break}

-- A buffer of size `n` that holds `t`, with no error.
abbrev pub holding : ℕ → Bytes → Buffer
holding n t = record { size = n; text = t; is_error = false }

pub append-holding :
    (n : ℕ) (t str : Bytes)
    → length t + length str < n
    → (append (holding n t) str).1 ≡ holding n (t ++ str)
unfolding append
append-holding n t str h = rw (too_small n t str h)
  where
    too_small :
        (n : ℕ) (t str : Bytes) → length t + length str < n → leb n (length str + length t) ≡ false
    too_small n t str h = ground arith

-- what stands for a string in a record
abbrev pub clean : Option Bytes → Bytes
clean none = []
clean (some s) = map replace_special s

-- the first line of the string that is split
unfoldable pub first_line : Option Bytes → Option Bytes
first_line none = none
first_line (some sol) = elim (strchr b'\n' sol) [ none ↦ some sol | some k ↦ some (take k sol) ]

pub put_string-holding :
    (n : ℕ) (t : Bytes) (s : Option Bytes)
    → length t + length (clean s) < n
    → put_string (holding n t) s none ≡ holding n (t ++ clean s)
unfolding put_string cut_line
put_string-holding n t none h = ap (holding n) (sym (append-nil t))
put_string-holding n t (some s) h = rw (
  append-holding n t s (omega (arith, length-map s replace_special)),
  take-append_self t s,
  drop-append_self t s,
)

pub append_text :
    (n : ℕ) (t s : Bytes) (m : ℕ) → m < n → take m (append (holding n t) s).1.text ≡ take m (t ++ s)
unfolding append
append_text n t s m h = elim (Bool-cases (leb n (length s + length t))) [
  | inl e ↦ rw e (take-take_le m (n - 1) (t ++ s) (omega arith))
  | inr e ↦ rw e
]

pub append_size : (n : ℕ) (t s : Bytes) → (append (holding n t) s).1.size ≡ n
unfolding append
append_size n t s = elim (Bool-cases (leb n (length s + length t))) [ inl e ↦ rw e | inr e ↦ rw e ]

pub cut_line-append :
    (n : ℕ) (t s : Bytes) (k : ℕ)
    → length t + k < n
    → cut_line (append (holding n t) s).1 (length t) (some k) ≡ holding n (t ++ take k s)
unfolding cut_line
cut_line-append n t s k h =
    rw (append_size n t s, lt→ltb (length t + k) n h, append_text n t s (length t + k) h)
      (ap (holding n) (take-append_add t s (length t + k) k refl))

-- The line that is split off is written even where the whole string does not fit.
pub put_string-line :
    (n : ℕ) (t s : Bytes) (k : ℕ)
    → length t + k < n
    → put_string (holding n t) (some s) (some k) ≡ holding n (t ++ map replace_special (take k s))
unfolding put_string
put_string-line n t s k h =
    rw (cut_line-append n t s k h, take-append_self t (take k s), drop-append_self t (take k s))

pub first_line-none : first_line none ≡ none
unfolding first_line
first_line-none = refl

pub first_line-whole : (sol : Bytes) → strchr b'\n' sol ≡ none → first_line (some sol) ≡ some sol
unfolding first_line
first_line-whole sol e = rw (e, first_line)

pub first_line-cut :
    (sol : Bytes) (k : ℕ) → strchr b'\n' sol ≡ some k → first_line (some sol) ≡ some (take k sol)
unfolding first_line
first_line-cut sol k e = rw (e, first_line)

pub put_string-first :
    (n : ℕ) (t : Bytes) (sol : Option Bytes)
    → length t + length (clean (first_line sol)) < n
    → put_string (holding n t) sol (first_break sol) ≡ holding n (t ++ clean (first_line sol))
put_string-first n t none h =
    rw first_line-none (put_string-holding n t none (rw first_line-none at h))
put_string-first n t (some sol) h = elim (Option-cases (strchr b'\n' sol)) [
  | inl e ↦
      (let whole = first_line-whole sol e in
        rw (e, whole) (put_string-holding n t (some sol) (rw whole at h)))
  | inr (k, e) ↦
      (let cut = first_line-cut sol k e in
        rw (e, cut)
          (put_string-line n t sol k (
            omega (
              arith,
              (rw cut at h),
              length-map (take k sol) replace_special,
              length-take k sol,
              strchr-lt b'\n' sol k e,
            ))))
]
