-- ===== src/Pages/Sitemap.antt =====
-- The pages that exist: one for each page.tsx under web/src/app, with the wildcards of its folders.
use core_banking_system.Prelude.{
  String, Bool, List, [], ◌∷◌, any, every, is_some, not, ◌||◌, ◌&&◌, truthy,
}
use core_banking_system.Client.Target.{is_plain}
use core_banking_system.Backend.Routes.{Pat, lit, wild, match_path}
use core_banking_system.Ui.Node.{Target}

abbrev pub pages : List (List Pat)
pages =
    []
    ∷ (lit "central-bank" ∷ [])
    ∷ (lit "cycles" ∷ [])
    ∷ (lit "cycles" ∷ wild ∷ [])
    ∷ (lit "mandates" ∷ [])
    ∷ (lit "payments" ∷ [])
    ∷ (lit "payments" ∷ wild ∷ [])
    ∷ (lit "schemes" ∷ [])
    ∷ (lit "settlements" ∷ [])
    ∷ (lit "settlements" ∷ wild ∷ [])
    ∷ (lit "participants" ∷ wild ∷ [])
    ∷ (lit "participants" ∷ wild ∷ lit "audit" ∷ [])
    ∷ (lit "participants" ∷ wild ∷ lit "deposit-accounts" ∷ [])
    ∷ (lit "participants" ∷ wild ∷ lit "deposit-accounts" ∷ wild ∷ [])
    ∷ (lit "participants" ∷ wild ∷ lit "deposit-audit" ∷ [])
    ∷ (lit "participants" ∷ wild ∷ lit "ledger" ∷ [])
    ∷ (lit "participants" ∷ wild ∷ lit "transactions" ∷ [])
    ∷ []

unfoldable pub exists_page : Target → Bool
unfolding match_path
exists_page t = any (λ p. is_some (match_path p t)) pages

-- An id that is one segment of a path.
unfoldable pub is_segment : String → Bool
is_segment s = truthy s && is_plain s

-- A target leads to a page, if its ids are segments.
unfoldable pub leads : Target → Bool
unfolding exists_page is_segment
leads t = not (every is_segment t) || exists_page t
