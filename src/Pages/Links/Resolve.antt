-- ===== src/Pages/Links/Resolve.antt =====
-- From the targets of a page to the texts that its links carry.
use core_banking_system.Prelude.{
  ◌≡◌, refl, ap, ◌∙◌, String, Bool, true, false, List, [], ◌∷◌, ◌++◌, every, not, ◌||◌, ◌=?◌, some,
  none,
}
use mathlib.Core.Bool.{and-eq-true_iff}
use package.text.Mathlib.TextLemmas.{append-nil}
use core_banking_system.Client.{url}
use core_banking_system.Client.Target.{segments, is_plain, All-IsPlain_of_every, segments-url}
use core_banking_system.Backend.Reach.{behind_slash}
use core_banking_system.Ui.Node.{Node, text, Target, targets}
use core_banking_system.Pages.Shell.{href}
use core_banking_system.Pages.Sitemap.{exists_page, is_segment, leads}
use core_banking_system.Pages.Links.{Leads}

-- The page at a path, as a text.
unfoldable pub exists_at : String → Bool
unfolding segments exists_page
exists_at path = path =? "/" || exists_page (behind_slash (segments path))

-- The text of a link is the path of a page, if the ids in it are segments.
unfoldable pub resolves : Target → Bool
unfolding is_segment href exists_at
resolves t = not (every is_segment t) || exists_at (href t)

every_plain : (t : Target) → every is_segment t ≡ true → every is_plain t ≡ true
unfolding is_segment
every_plain [] h = refl
every_plain (s ∷ t) h =
    let (p, q) = (and-eq-true_iff _ _).0 h in
    (and-eq-true_iff _ _).1 (((and-eq-true_iff _ _).0 p).1, every_plain t q)

segments-href :
    (s : String) (t : Target)
    → every is_segment (s ∷ t) ≡ true
    → behind_slash (segments (href (s ∷ t))) ≡ s ∷ t
unfolding href
segments-href s t h =
    rw
      (
        ← append-nil (url (s ∷ t)),
        segments-url (s ∷ t) "" (All-IsPlain_of_every (s ∷ t) (every_plain (s ∷ t) h)) tt,
      )
      refl

implied_or :
    (e q p p' : Bool) → (e ≡ true → p' ≡ p) → (not e || p) ≡ true → (not e || (q || p')) ≡ true
implied_or false q p p' f h = refl
implied_or true true p p' f h = refl
implied_or true false p p' f h = f refl ∙ h

leads-resolves : (t : Target) → leads t ≡ true → resolves t ≡ true
unfolding leads resolves exists_at
leads-resolves [] h = refl
leads-resolves (s ∷ t) h =
    implied_or (every is_segment (s ∷ t)) _ (exists_page (s ∷ t)) _
      (λ e. ap exists_page (segments-href s t e)) h

every-join {ℓ} :
    {A : Type ℓ} (p : A → Bool) (xs ys : List A)
    → every p xs ≡ true
    → every p ys ≡ true
    → every p (xs ++ ys) ≡ true
every-join p [] ys h k = k
every-join p (x ∷ xs) ys h k =
    let (a, b) = (and-eq-true_iff (p x) (every p xs)).0 h in
    (and-eq-true_iff _ _).1 (a, every-join p xs ys b k)

pub Leads-targets : (n : Node) → Leads n → every resolves (targets n) ≡ true
unfolding targets
Leads-targets (Node.link t n) (h, k) = rw (leads-resolves t h) (Leads-targets n k)
Leads-targets (Node.row (some t) n) (h, k) = rw (leads-resolves t h) (Leads-targets n k)
Leads-targets (Node.row none n) h = Leads-targets n h
Leads-targets (Node.cell n) h = Leads-targets n h
Leads-targets (Node.also a b) (h, k) =
    every-join resolves (targets a) (targets b) (Leads-targets a h) (Leads-targets b k)
Leads-targets _ h = refl
