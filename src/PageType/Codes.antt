-- ===== src/PageType/Codes.antt =====
-- The numbers of page types and the types are in one-to-one correspondence.
use pgvectorscale.Base.{some, ◌≡◌, ◌↔◌, refl, arith}
use pgvectorscale.PageType.{PageType, as_u8, from_u8, TsvPageOpaqueData, new, get_type, tsv_page_id}

-- A page is of a type exactly when it carries the mark of the index and the number of the type;
-- a page that was initialized with a type is of that type.
pub get_type_iff :
    (d : TsvPageOpaqueData) (t : PageType)
    → ((get_type d ≡ some t) ↔ ((d.page_id ≡ tsv_page_id) × (d.page_type ≡ as_u8 t)))
      × (get_type (new t) ≡ some t)
unfolding get_type from_u8 as_u8 new
get_type_iff d PageType.meta_v1 = (ground arith, refl)
get_type_iff d PageType.node_page = (ground arith, refl)
get_type_iff d PageType.pq_quantizer_def = (ground arith, refl)
get_type_iff d PageType.pq_quantizer_vector = (ground arith, refl)
get_type_iff d PageType.sbq_means_v1 = (ground arith, refl)
get_type_iff d PageType.sbq_node = (ground arith, refl)
get_type_iff d PageType.meta_v2 = (ground arith, refl)
get_type_iff d PageType.sbq_means = (ground arith, refl)
get_type_iff d PageType.meta = (ground arith, refl)

pub from_u8-as_u8 : (t : PageType) → from_u8 (as_u8 t) ≡ some t
unfolding from_u8 as_u8
from_u8-as_u8 PageType.meta_v1 = refl
from_u8-as_u8 PageType.node_page = refl
from_u8-as_u8 PageType.pq_quantizer_def = refl
from_u8-as_u8 PageType.pq_quantizer_vector = refl
from_u8-as_u8 PageType.sbq_means_v1 = refl
from_u8-as_u8 PageType.sbq_node = refl
from_u8-as_u8 PageType.meta_v2 = refl
from_u8-as_u8 PageType.sbq_means = refl
from_u8-as_u8 PageType.meta = refl
