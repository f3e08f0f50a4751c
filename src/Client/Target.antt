-- ===== src/Client/Target.antt =====
-- How the target of a request is read: the path's segments, up to the query string. It is the inverse
-- of `url`, the reading of a template literal of web/src/lib/api/endpoints.ts.
use Prim.Native.Char.{Char, code}
use Prim.Native.String.{String, [], ◌∷◌}
use mathlib.Core.Bool.{and-eq-true_iff}
use text.Mathlib.TextLemmas.{nil-append, cons-append, append-nil, append_assoc}
use core_banking_system.Prelude.{
  ◌≡◌, refl, ap, ◌∙◌, List, Bool, true, false, ◌&&◌, every, nat_eq, ◌+s◌, All, if◌then◌else◌, ◌⊎◌,
  inl, inr,
}
use core_banking_system.Client.{url}

-- The part that a character plays in a target.
pub data Role : Type 0 where
  slash question plain : Role

unfoldable pub role : Char → Role
role c =
    if nat_eq (code c) b'/'
    then Role.slash
    else if nat_eq (code c) b'?'
    then Role.question
    else Role.plain

Role-cases : (r : Role) → (r ≡ Role.slash) ⊎ ((r ≡ Role.question) ⊎ (r ≡ Role.plain))
Role-cases Role.slash = inl refl
Role-cases Role.question = inr (inl refl)
Role-cases Role.plain = inr (inr refl)

abbrev pub cons_head : Char → List String → List String
cons_head c List.[] = List.◌∷◌ (c ∷ []) List.[]
cons_head c (List.◌∷◌ h t) = List.◌∷◌ (c ∷ h) t

unfoldable pub segments : String → List String
segments [] = List.◌∷◌ "" List.[]
segments (c ∷ s) = elim (role c) [
  | Role.slash ↦ List.◌∷◌ "" (segments s)
  | Role.question ↦ List.◌∷◌ "" List.[]
  | Role.plain ↦ cons_head c (segments s)
]

-- A text with no slash and no question mark, as a test and as a predicate.
abbrev is_plain_role : Role → Bool
is_plain_role Role.plain = true
is_plain_role _ = false

unfoldable pub is_plain : String → Bool
unfolding role
is_plain [] = true
is_plain (c ∷ s) = is_plain_role (role c) && is_plain s

abbrev pub IsPlain : String → Type 0
IsPlain [] = Unit
IsPlain (c ∷ s) = (role c ≡ Role.plain) × IsPlain s

-- A query string: nothing, or a question mark and more.
abbrev pub IsQuery : String → Type 0
IsQuery [] = Unit
IsQuery (c ∷ s) = role c ≡ Role.question

role_of_plain : (r : Role) → is_plain_role r ≡ true → r ≡ Role.plain
role_of_plain Role.plain h = refl
role_of_plain Role.slash h = cc
role_of_plain Role.question h = cc

IsPlain-of_is_plain : (s : String) → is_plain s ≡ true → IsPlain s
unfolding is_plain
IsPlain-of_is_plain [] h = tt
IsPlain-of_is_plain (c ∷ s) h =
    let (p, q) = (and-eq-true_iff _ _).0 h in (role_of_plain (role c) p, IsPlain-of_is_plain s q)

pub All-IsPlain_of_every : (l : List String) → every is_plain l ≡ true → All IsPlain l
All-IsPlain_of_every List.[] h = tt
All-IsPlain_of_every (List.◌∷◌ s l) h =
    let (p, q) = (and-eq-true_iff _ _).0 h in (IsPlain-of_is_plain s p, All-IsPlain_of_every l q)

pub question-IsQuery : (s : String) → IsQuery ("?" +s s)
unfolding role
question-IsQuery s = rw cons-append refl

abbrev prepend : String → List String → List String
prepend s List.[] = List.◌∷◌ s List.[]
prepend s (List.◌∷◌ h t) = List.◌∷◌ (s +s h) t

prepend-cons :
    (c : Char) (s : String) (l : List String) → cons_head c (prepend s l) ≡ prepend (c ∷ s) l
prepend-cons c s List.[] = refl
prepend-cons c s (List.◌∷◌ h t) = rw cons-append

-- There is always a first segment.
segments-cons : (s : String) → (h : String) × (t : List String) × (segments s ≡ List.◌∷◌ h t)
unfolding segments
segments-cons [] = ("", List.[], refl)
segments-cons (c ∷ s) = elim (Role-cases (role c)) [
  | inl sl ↦ ("", segments s, rw (sl, segments))
  | inr (inl qu) ↦ ("", List.[], rw (qu, segments))
  | inr (inr pl) ↦ let (h, t, e) = segments-cons s in (c ∷ h, t, rw (pl, segments) (rw e))
]

segments-append : (s t : String) → IsPlain s → segments (s +s t) ≡ prepend s (segments t)
unfolding segments
segments-append [] t h = let (a, l, e) = segments-cons t in rw (nil-append, e) (rw nil-append)
segments-append (c ∷ s) t (p, h) =
    rw cons-append
      (rw (p, segments) (ap (cons_head c) (segments-append s t h) ∙ prepend-cons c s (segments t)))

segments-query : (q : String) → IsQuery q → segments q ≡ List.◌∷◌ "" List.[]
unfolding segments
segments-query [] h = refl
segments-query (c ∷ s) h = rw (h, segments)

slash-append : (s : String) → segments ("/" +s s) ≡ List.◌∷◌ "" (segments s)
unfolding segments role
slash-append s = rw (cons-append, nil-append) refl

-- Reading undoes writing: the segments of a template literal are found again, whatever query follows.
pub segments-url :
    (l : List String) (q : String)
    → All IsPlain l
    → IsQuery q
    → segments (url l +s q) ≡ List.◌∷◌ "" l
unfolding url
segments-url List.[] q h k = rw nil-append (segments-query q k)
segments-url (List.◌∷◌ s l) q (p, h) k =
    rw
      (
        append_assoc,
        append_assoc,
        slash-append,
        segments-append s (url l +s q) p,
        segments-url l q h k,
      )
      (rw append-nil)
