-- ===== src/PageType/Tests.antt =====
-- A page of nodes.
use pgvectorscale.Base.{some, ◌≡◌, ◌↔◌}
use pgvectorscale.PageType.{PageType, TsvPageOpaqueData, as_u8, new, get_type, tsv_page_id}
use pgvectorscale.PageType.Codes.{get_type_iff}

abbrev page : TsvPageOpaqueData
page = record { page_type = 5; reserved = 0; page_id = tsv_page_id }

get_type_iff_example :
    ((get_type page ≡ some PageType.sbq_node)
      ↔ ((page.page_id ≡ tsv_page_id) × (page.page_type ≡ as_u8 PageType.sbq_node)))
    × (get_type (new PageType.sbq_node) ≡ some PageType.sbq_node)
get_type_iff_example = get_type_iff page PageType.sbq_node
