-- ===== src/Jobs/Names.antt =====
-- The name of a job: `JobName` of shared/src/jobs/types.rs.
use Prim.Native.Char.{Char, code}
use Prim.Native.String.{String, [], ◌∷◌, len}
use koupang.Prelude.{
  ◌≡◌, refl, Bool, inl, inr, Bool-cases, true, false, ◌&&◌, ◌||◌, negate, leb, ltb, ◌==◌,
  if◌then◌else◌, arith,
}
use koupang.Errors.{AppError, bad_request, Result, ok, err}
use koupang.Strings.{trim, trim-twice, is_empty}

abbrev is_dot : Char → Bool
is_dot c = code c == 46

abbrev is_name_char : Char → Bool
is_name_char c =
    let n = code c in leb 97 n && leb n 122 || leb 48 n && leb n 57 || n == 46 || n == 95 || n == 45

abbrev all_name_chars : String → Bool
all_name_chars [] = true
all_name_chars (c ∷ s) = is_name_char c && all_name_chars s

abbrev contains_dot : String → Bool
contains_dot [] = false
contains_dot (c ∷ s) = is_dot c || contains_dot s

abbrev starts_with_dot : String → Bool
starts_with_dot [] = false
starts_with_dot (c ∷ s) = is_dot c

abbrev ends_with_dot : String → Bool
ends_with_dot [] = false
ends_with_dot (c ∷ s) = if is_empty s then is_dot c else ends_with_dot s

abbrev contains_two_dots : String → Bool
contains_two_dots [] = false
contains_two_dots (c ∷ s) = is_dot c && starts_with_dot s || contains_two_dots s

-- `JobName::new` on the trimmed input; every refusal is a `BadRequest`.
abbrev checked_name : String → Result AppError String
checked_name trimmed =
    if is_empty trimmed
    then err bad_request
    else if ltb 255 (len trimmed)
    then err bad_request
    else if negate (all_name_chars trimmed)
    then err bad_request
    else if negate (contains_dot trimmed)
    then err bad_request
    else if starts_with_dot trimmed || ends_with_dot trimmed
    then err bad_request
    else if contains_two_dots trimmed
    then err bad_request
    else ok trimmed

unfoldable pub new_job_name : String → Result AppError String
new_job_name input = checked_name (trim input)

-- What the documentation of `JobName` asks for.
abbrev IsJobName : String → Type 0
IsJobName s =
    (ltb 255 (len s) ≡ false)
    × ((all_name_chars s ≡ true)
        × ((contains_dot s ≡ true)
            × ((starts_with_dot s ≡ false)
                × ((ends_with_dot s ≡ false) × (contains_two_dots s ≡ false)))))

-- What a check of `s` may answer.
abbrev Decides : String → Result AppError String → Type 0
Decides s (ok name) = (name ≡ s) × IsJobName name
Decides s (err e) = (e ≡ bad_request) × ¬ IsJobName s

decided : (s : String) → is_empty s ≡ false → Decides s (checked_name s)
decided s full = rw full (elim (Bool-cases (ltb 255 (len s))) [
  | inl e ↦ rw e (refl, λ h. ground (arith, e, h.0))
  | inr short ↦ rw short (elim (Bool-cases (all_name_chars s)) [
    | inr e ↦ rw e (refl, λ h. ground (arith, e, h.1.0))
    | inl chars ↦ rw chars (elim (Bool-cases (contains_dot s)) [
      | inr e ↦ rw e (refl, λ h. ground (arith, e, h.1.1.0))
      | inl dot ↦ rw dot (elim (Bool-cases (starts_with_dot s)) [
        | inl e ↦ rw e (refl, λ h. ground (arith, e, h.1.1.1.0))
        | inr start ↦ rw start (elim (Bool-cases (ends_with_dot s)) [
          | inl e ↦ rw e (refl, λ h. ground (arith, e, h.1.1.1.1.0))
          | inr end ↦ rw end (elim (Bool-cases (contains_two_dots s)) [
            | inl e ↦ rw e (refl, λ h. ground (arith, e, h.1.1.1.1.1))
            | inr e ↦ rw e (refl, (short, (chars, (dot, (start, (end, e))))))
          ])
        ])
      ])
    ])
  ])
])

-- A name is accepted as `new` documents it, trimmed, and anything else is a `BadRequest`; a name
-- that was accepted is accepted again, unchanged.
new_job_name_accepts :
    (input : String)
    → Decides (trim input) (new_job_name input) × (new_job_name (trim input) ≡ new_job_name input)
unfolding new_job_name
new_job_name_accepts input = (checks (trim input), rw (trim-twice input) refl)
  where
    checks : (s : String) → Decides s (checked_name s)
    checks [] = (refl, λ h. ground (arith, h.1.1.0))
    checks (c ∷ s) = decided (c ∷ s) refl
