-- ===== src/PageType.antt =====
-- The types of pages of pgvectorscale/src/util/page.rs and the mark that a page of the index
-- carries. What PostgreSQL does to a page is left out.
pub mod Codes
mod Tests
use pgvectorscale.Base.{ℕ, Bool, true, false, Option, none, some, ◌==◌, if◌then◌else◌}
use pgvectorscale.Node.{◌>>=◌}

pub data PageType : Type 0 where
  meta_v1 node_page pq_quantizer_def pq_quantizer_vector sbq_means_v1 sbq_node : PageType
  meta_v2 sbq_means meta : PageType

-- `page_type as u8`
unfoldable pub as_u8 : PageType → ℕ
as_u8 meta_v1 = 0
as_u8 node_page = 1
as_u8 pq_quantizer_def = 2
as_u8 pq_quantizer_vector = 3
as_u8 sbq_means_v1 = 4
as_u8 sbq_node = 5
as_u8 meta_v2 = 6
as_u8 sbq_means = 7
as_u8 meta = 8

-- `none` is the panic on an unknown number.
unfoldable pub from_u8 : ℕ → Option PageType
from_u8 value =
    if value == 0
    then some meta_v1
    else if value == 1
    then some node_page
    else if value == 2
    then some pq_quantizer_def
    else if value == 3
    then some pq_quantizer_vector
    else if value == 4
    then some sbq_means_v1
    else if value == 5
    then some sbq_node
    else if value == 6
    then some meta_v2
    else if value == 7
    then some sbq_means
    else if value == 8
    then some meta
    else none

unfoldable pub is_chained : PageType → Bool
is_chained sbq_means = true
is_chained meta = true
is_chained _ = false

abbrev pub tsv_page_id : ℕ
tsv_page_id = 44580

pub record TsvPageOpaqueData : Type 0 where
  pub page_type : ℕ
  pub reserved : ℕ
  pub page_id : ℕ

-- `TsvPageOpaqueData::new`
unfoldable pub new : PageType → TsvPageOpaqueData
unfolding as_u8
new t = record { page_type = as_u8 t; reserved = 0; page_id = tsv_page_id }

-- The type of a verified page; `none` is a failed assertion or a panic.
unfoldable pub get_type : TsvPageOpaqueData → Option PageType
unfolding from_u8
get_type d = if d.page_id == tsv_page_id then from_u8 d.page_type else none
