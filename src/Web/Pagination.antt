-- ===== src/Web/Pagination.antt =====
-- app/web/pagination.py: pages of a query's rows, and the counts of devices by status.
pub mod Pages
use unifi_netwatcher.Models.{Device, DeviceStatus, unknown, trusted, ignored, blocked}
use unifi_netwatcher.Base.{
  ltb, leb, if◌then◌else◌, length, take, drop, ℕ, suc, ◌+◌, ◌-◌, ◌*◌, ◌/◌, min, max, Bool, Option,
  none, some, List, [], ◌∷◌,
}
use unifi_netwatcher.Base.Ints.{ℤ, pos, negsuc}

abbrev pub default_page_size : ℕ
default_page_size = 50

abbrev pub max_page_size : ℕ
max_page_size = 200

pub record Page (A : Type 0) : Type 0 where
  pub items : List A
  pub page : ℕ
  pub page_size : ℕ
  pub total : ℕ

module _ {A : Type 0} where
  unfoldable pub total_pages : Page A → ℕ
  total_pages p = if leb p.page_size 0 then 0 else max 1 ((p.total + p.page_size - 1) / p.page_size)

  unfoldable pub has_prev : Page A → Bool
  has_prev p = ltb 1 p.page

  unfoldable pub has_next : Page A → Bool
  has_next p = ltb p.page (total_pages p)

  -- `query.offset((page - 1) * page_size).limit(page_size).all()`; pages count from 1.
  unfoldable pub paginate : List A → ℕ → ℕ → Page A
  paginate rows page page_size = record {
    items = take page_size (drop ((page - 1) * page_size) rows);
    page = page;
    page_size = page_size;
    total = length rows;
  }

-- `int | None`: a value below 1 is clamped to 1.
abbrev at_least_one : ℤ → ℕ
at_least_one (pos n) = max 1 n
at_least_one (negsuc n) = 1

abbrev page_number : Option ℤ → ℕ
page_number none = 1
page_number (some page) = at_least_one page

abbrev size_or_default : Option ℤ → ℕ
size_or_default none = default_page_size
size_or_default (some size) = min max_page_size (at_least_one size)

unfoldable pub clamp_pagination : Option ℤ → Option ℤ → ℕ × ℕ
clamp_pagination page page_size = (page_number page, size_or_default page_size)

pub record StatusCounts : Type 0 where
  pub total : ℕ
  pub unknown : ℕ
  pub trusted : ℕ
  pub ignored : ℕ

abbrev add_status : DeviceStatus → StatusCounts → StatusCounts
add_status DeviceStatus.unknown c = record c { total = suc c.total; unknown = suc c.unknown }
add_status DeviceStatus.trusted c = record c { total = suc c.total; trusted = suc c.trusted }
add_status DeviceStatus.ignored c = record c { total = suc c.total; ignored = suc c.ignored }
add_status DeviceStatus.blocked c = record c { total = suc c.total }

unfoldable pub device_status_counts : List Device → StatusCounts
device_status_counts [] = record { total = 0; unknown = 0; trusted = 0; ignored = 0 }
device_status_counts (d ∷ ds) = add_status d.status (device_status_counts ds)
