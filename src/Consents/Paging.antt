-- ===== src/Consents/Paging.antt =====
-- The pages of a query, one after another.
use consentchain.Prelude.{ℕ, zero, suc, ◌*◌, List, [], ◌++◌, take, drop}
use Prim.Native.String.{String}

module _ {A : Type 0} where
  -- The rows of the first pages, one page after another.
  unfoldable pub pages : ℕ → ℕ → List A → List A
  pages zero limit xs = []
  pages (suc n) limit xs = pages n limit xs ++ take limit (drop (n * limit) xs)
