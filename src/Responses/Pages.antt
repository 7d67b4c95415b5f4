-- ===== src/Responses/Pages.antt =====
-- What a page says of the rows that it was cut from.
use systemd_monitoring_mcp.Base.{
  ℕ, ◌<◌, ◌≡◌, refl, ◌↔◌, min, true, List, arith, length, length-take, drop, ◌++◌, take-append-drop,
}
use systemd_monitoring_mcp.Responses.{Pagination, paginate_rows}

-- A page is the first `limit` rows; `total` counts all of them, `returned` those on the page, and
-- `truncated` says exactly whether rows were left out.
pub record IsPageOf {ℓ} {T : Type ℓ} (page : Pagination T) (rows : List T) (limit : ℕ)
    : Type ℓ where
  pub prefix : page.rows ++ drop limit rows ≡ rows
  pub total_all : page.total ≡ length rows
  pub returned_min : page.returned ≡ min limit (length rows)
  pub returned_rows : page.returned ≡ length page.rows
  pub truncated_iff : (page.truncated ≡ true) ↔ (limit < length rows)

-- A page is a prefix of the rows, of the limit's length if there are that many; its totals count all
-- rows and those on it, and it is marked as truncated exactly if rows were left out.
pub paginate_rows-IsPageOf {ℓ} :
    {T : Type ℓ} (rows : List T) (limit : ℕ) → IsPageOf (paginate_rows rows limit) rows limit
unfolding paginate_rows
paginate_rows-IsPageOf rows limit = record {
  prefix = take-append-drop limit rows;
  total_all = refl;
  returned_min = length-take limit rows;
  returned_rows = refl;
  truncated_iff = ground (arith, length-take limit rows);
}
