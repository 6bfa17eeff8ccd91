-- ===== src/CurrentFilter.antt =====
-- The moving average of the current (rm32/src/current.rs).
pub mod Mean
mod Examples
use rm32_private.Base.{ℕ, ◌+◌, ◌/◌, leb, if◌then◌else◌, List, replicate, get_or, set}
use rm32_private.Base.Word.{u16, u32, sub_u32}

pub record CurrentFilter : Type 0 where
  pub readings : List ℕ
  pub index : ℕ
  pub total : ℕ

abbrev pub new : CurrentFilter
new = record { readings = replicate 50 0; index = 0; total = 0 }

-- The index stays below 50, so that it is in range.
unfoldable pub update : ℕ → CurrentFilter → CurrentFilter × ℕ
update raw f =
    let total = u32 (sub_u32 f.total (get_or f.readings f.index 0) + raw) in
    let index = f.index + 1 in
    (
      record {
        readings = set f.readings f.index raw;
        index = if leb 50 index then 0 else index;
        total = total;
      },
      u16 (total / 50),
    )
