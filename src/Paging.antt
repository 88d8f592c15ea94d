-- ===== src/Paging.antt =====
-- The paging that the listings share: orchestration/migrationImport.service.js (`listStagedRows`,
-- `listImportJobs`) and orchestration/sessionManager.js (`listSessions`).
--
-- `Number(page)` and `Number(limit)` are arguments, whole numbers or, as `none`, NaN. MongoDB's
-- `skip` and `limit` cut the sorted list of the documents that match.
pub mod Laws
mod Tests
use universal_data_onboarder.Base.{
  ℕ, zero, suc, ◌-◌, ◌*◌, min, max, List, Option, none, some, length, take, drop, ℤ, pos, negsuc,
}

-- `n || d`, and at least 1: `Math.max(1, n || d)`
unfoldable pub at_least_one : ℕ → Option ℤ → ℕ
at_least_one d none = max 1 d
at_least_one d (some (pos zero)) = max 1 d
at_least_one d (some (pos (suc n))) = suc n
at_least_one d (some (negsuc n)) = 1

-- `Math.max(1, Number(page) || 1)`
unfoldable pub numeric_page : Option ℤ → ℕ
unfolding at_least_one
numeric_page page = at_least_one 1 page

-- `Math.min(cap, Math.max(1, Number(limit) || 20))`
unfoldable pub numeric_limit : ℕ → Option ℤ → ℕ
unfolding at_least_one
numeric_limit cap limit = min cap (at_least_one 20 limit)

pub record Page {ℓ} (A : Type ℓ) : Type ℓ where
  pub items : List A
  pub total : ℕ
  pub page : ℕ
  pub limit : ℕ

-- `.skip((numericPage - 1) * numericLimit).limit(numericLimit)`
unfoldable pub page_items {ℓ} : {A : Type ℓ} → List A → ℕ → ℕ → List A
page_items found page limit = take limit (drop ((page - 1) * limit) found)

unfoldable pub page_of {ℓ} : {A : Type ℓ} → ℕ → List A → Option ℤ → Option ℤ → Page A
unfolding numeric_page numeric_limit page_items
page_of cap found page limit =
    let p = numeric_page page in
    let l = numeric_limit cap limit in
    record { items = page_items found p l; total = length found; page = p; limit = l }
