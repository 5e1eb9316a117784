-- ===== src/Context/Fields.antt =====
-- What the operations of InfoLoggerContext (src/InfoLoggerContext.cxx) leave in its fields.
use info_logger.Base.{
  ℕ, zero, suc, ◌≡◌, refl, Bool, true, false, not, ◌&&◌, List, [], ◌∷◌, Option, none, some, ◌==◌,
  ◌+◌, if◌then◌else◌, ℤ, pos, negsuc, minus_one, leb_ℤ, length, arith, take, Bool-cases, inl, inr,
  ap, ◌∙◌, sym, subst, ◌≢◌, Option-cases,
}
use info_logger.CText.{Bytes, codes, strchr}
use info_logger.Context.{
  FieldName, facility, role, system, detector, partition, run, Context, Host, atoi, reset,
  positive_or_unset, short_name, run_or_old, refresh, refresh_pid, failure, set_field, set_fields,
}

-- The text of a field, the run number being none.
abbrev pub text_in : FieldName → Context → Bytes
text_in facility c = c.facility
text_in role c = c.role
text_in system c = c.system
text_in detector c = c.detector
text_in partition c = c.partition
text_in run c = []

-- The two name one text field.
abbrev pub same_text : FieldName → FieldName → Bool
same_text facility facility = true
same_text role role = true
same_text system system = true
same_text detector detector = true
same_text partition partition = true
same_text _ _ = false

-- The last text that a list gives for a field, or `old`.
unfoldable pub last_text : FieldName → List (FieldName × Bytes) → Bytes → Bytes
last_text k [] old = old
last_text k ((key, value) ∷ kvs) old = last_text k kvs (if same_text key k then value else old)

-- The run number after one setting: -1 where the text is blank or no positive number.
unfoldable pub run_of : FieldName → Bytes → ℤ → ℤ
run_of run value old = if length value == 0 then minus_one else positive_or_unset (atoi value)
run_of _ value old = old

-- The run number after a list of settings.
unfoldable pub last_run : List (FieldName × Bytes) → ℤ → ℤ
last_run [] old = old
last_run ((key, value) ∷ kvs) old = last_run kvs (run_of key value old)

-- A run number that is neither blank nor positive.
unfoldable pub is_wrong : FieldName → Bytes → Bool
is_wrong run value = not (length value == 0) && leb_ℤ (atoi value) (pos 0)
is_wrong _ value = false

-- How many of the settings are wrong.
unfoldable pub wrong_runs : List (FieldName × Bytes) → ℕ
wrong_runs [] = 0
wrong_runs ((key, value) ∷ kvs) = wrong_runs kvs + (if is_wrong key value then 1 else 0)

-- A run number is -1 or positive.
abbrev pub ValidRun : ℤ → Type 0
ValidRun z = leb_ℤ z (pos 0) ≡ true → z ≡ minus_one

set_field-text :
    (key : FieldName) (value : Bytes) (c : Context) (k : FieldName)
    → text_in k (set_field key value c).1 ≡ (if same_text key k then value else text_in k c)
unfolding set_field
set_field-text key value c k = ground arith

set_field-run :
    (key : FieldName) (value : Bytes) (c : Context)
    → ((set_field key value c).1.run ≡ run_of key value c.run)
      × (failure (set_field key value c).0 ≡ is_wrong key value)
unfolding set_field run_of is_wrong
set_field-run facility value c = (refl, refl)
set_field-run role value c = (refl, refl)
set_field-run system value c = (refl, refl)
set_field-run detector value c = (refl, refl)
set_field-run partition value c = (refl, refl)
set_field-run run value c = elim (Bool-cases (length value == 0)) [
  | inl e ↦ rw e (refl, refl)
  | inr e ↦ elim (Bool-cases (leb_ℤ (atoi value) (pos 0))) [
    | inl f ↦ rw (e, f) (refl, refl)
    | inr f ↦ rw (e, f) (refl, refl)
  ]
]

-- A setting of the fields from a list counts one error for each run number that is neither blank nor
-- positive; each text field has the last text given for it or else its old one, and the run number
-- is the last one given, -1 if that is blank or wrong.
pub set_fields-last :
    (kvs : List (FieldName × Bytes)) (n : ℕ) (c : Context) (k : FieldName)
    → ((set_fields kvs n c).0 ≡ n + wrong_runs kvs)
      × (text_in k (set_fields kvs n c).1 ≡ last_text k kvs (text_in k c))
      × ((set_fields kvs n c).1.run ≡ last_run kvs c.run)
unfolding set_fields last_text last_run wrong_runs
set_fields-last [] n c k = (omega arith, refl, refl)
set_fields-last ((key, value) ∷ kvs) n c k =
    let rest =
      set_fields-last kvs (if failure (set_field key value c).0 then n + 1 else n)
        (set_field key value c).1 k in
    let here = set_field-run key value c in
    (
      rest.0
          ∙ (rw here.1
              (elim (is_wrong key value)
                as (λ b.
                  (if b then n + 1 else n) + wrong_runs kvs
                  ≡ n + (wrong_runs kvs + (if b then 1 else 0))) [
                    | true ↦ omega arith
                    | false ↦ omega arith
                  ])),
      rest.1 ∙ ap (last_text k kvs) (set_field-text key value c k),
      rest.2 ∙ ap (last_run kvs) here.0,
    )

true_ne_false : true ≢ false
true_ne_false e = cc

positive_or_unset-ValidRun : (z : ℤ) → ValidRun (positive_or_unset z)
positive_or_unset-ValidRun z h = elim (Bool-cases (leb_ℤ z (pos 0))) [
  | inl e ↦ rw e refl
  | inr e ↦ absurd (true_ne_false (sym h ∙ (rw e e)))
]

run_of-ValidRun :
    (key : FieldName) (value : Bytes) (z : ℤ) → ValidRun z → ValidRun (run_of key value z)
unfolding run_of
run_of-ValidRun facility value z h = h
run_of-ValidRun role value z h = h
run_of-ValidRun system value z h = h
run_of-ValidRun detector value z h = h
run_of-ValidRun partition value z h = h
run_of-ValidRun run value z h =
    elim (length value == 0)
      as (λ b. ValidRun (if b then minus_one else positive_or_unset (atoi value))) [
        | true ↦ λ _. refl
        | false ↦ positive_or_unset-ValidRun (atoi value)
      ]

last_run-ValidRun :
    (kvs : List (FieldName × Bytes)) (z : ℤ) → ValidRun z → ValidRun (last_run kvs z)
unfolding last_run
last_run-ValidRun [] z h = h
last_run-ValidRun ((key, value) ∷ kvs) z h =
    last_run-ValidRun kvs (run_of key value z) (run_of-ValidRun key value z h)

suc_of : {j k : ℕ} → some (suc j) ≡ some (suc k) → j ≡ k
suc_of {j} {k} h = cc

before-none : (b : ℕ) (s : Bytes) (k : ℕ) → strchr b s ≡ some k → strchr b (take k s) ≡ none
unfolding strchr
before-none b [] k h = cc
before-none b (c ∷ cs) zero h = refl
before-none b (c ∷ cs) (suc k) h = elim (Bool-cases (c == b)) [
  | inl e ↦ cc (rw e at h)
  | inr e ↦ elim (Option-cases (strchr b cs)) [
    | inl f ↦ cc (rw (e, f) at h)
    | inr (j, f) ↦
        (let same : j ≡ k = omega (arith, suc_of (rw (e, f) at h)) in
          rw (e, before-none b cs k (f ∙ ap (λ i. some i) same)) refl)
  ]
]

short_name-none : (s : Bytes) → strchr b'.' (short_name s) ≡ none
unfolding short_name
short_name-none s = elim (Option-cases (strchr b'.' s)) [
  | inl e ↦ rw (short_name, e) e
  | inr (k, e) ↦ rw (short_name, e) (before-none b'.' s k e)
]

run_or_old-ValidRun : (s : Option Bytes) → ValidRun (run_or_old s minus_one)
run_or_old-ValidRun none h = refl
run_or_old-ValidRun (some s) h = positive_or_unset-ValidRun (atoi s) h

refresh-ValidRun : (h : Host) → ValidRun (refresh h).run
unfolding refresh
refresh-ValidRun h = run_or_old-ValidRun (h.getenv (codes "O2_RUN"))

refresh_pid-ValidRun : (h : Host) (pid : ℤ) → ValidRun (refresh_pid h pid).run
unfolding refresh_pid reset
refresh_pid-ValidRun h (pos zero) = refresh-ValidRun h
refresh_pid-ValidRun h (pos (suc n)) = λ _. refl
refresh_pid-ValidRun h (negsuc n) = λ _. refl

host_of-none :
    (s : Option Bytes)
    → strchr b'.' (elim s as (λ _. Bytes) [ none ↦ [] | some s ↦ short_name s ]) ≡ none
unfolding strchr
host_of-none none = refl
host_of-none (some s) = short_name-none s

refresh_pid-none : (h : Host) (pid : ℤ) → strchr b'.' (refresh_pid h pid).host_name ≡ none
unfolding refresh_pid refresh
refresh_pid-none h (pos zero) = host_of-none h.gethostname
refresh_pid-none h (pos (suc n)) = host_of-none h.gethostname
refresh_pid-none h (negsuc n) = host_of-none h.gethostname

-- Whatever the environment says and whatever is set later, the run number of a context is -1 or
-- positive, and the host name that a refresh takes has no dot.
pub refresh_pid-ValidRun_after :
    (h : Host) (pid : ℤ) (kvs : List (FieldName × Bytes)) (n : ℕ)
    → ValidRun (set_fields kvs n (refresh_pid h pid)).1.run
      × (strchr b'.' (refresh_pid h pid).host_name ≡ none)
refresh_pid-ValidRun_after h pid kvs n = (
  subst ValidRun (sym (set_fields-last kvs n (refresh_pid h pid) run).2)
      (last_run-ValidRun kvs (refresh_pid h pid).run (refresh_pid-ValidRun h pid)),
  refresh_pid-none h pid,
)
