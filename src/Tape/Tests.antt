-- ===== src/Tape/Tests.antt =====
-- Items of one number on pages of the graph's nodes.
use pgvectorscale.Base.{suc, [], ◌∷◌, some, ◌≡◌, refl, arith, length}
use pgvectorscale.Fixtures.{pages}
use pgvectorscale.Pointer.{ItemPointer}
use pgvectorscale.PageType.{PageType, is_chained}
use pgvectorscale.Relation.{Page, Relation, get_item}
use pgvectorscale.Relation.Items.{Keeps}
use pgvectorscale.Tape.{Tape, resume, write}
use pgvectorscale.Tape.Written.{IsOn, NoneFrom, write-get_item, resume-IsOn}

abbrev nodes : Page
nodes = record { page_type = some PageType.sbq_node; items = (1 ∷ []) ∷ [] }

abbrev means : Page
means = record { page_type = some PageType.sbq_means; items = [] }

abbrev tape : Tape
tape = record { page_type = PageType.sbq_node; current = 0 }

tape-IsOn : IsOn tape (nodes ∷ means ∷ [])
unfolding is_chained
tape-IsOn = record { unchained = refl; page = nodes; found = refl; typed = refl }

write-get_item_example :
    (ip : ItemPointer) × (tape' : Tape) × (rel' : Relation) × (write pages
        (7 ∷ [])
        tape
        (nodes ∷ means ∷ [])
      ≡ some (ip, tape', rel'))
    × (get_item PageType.sbq_node ip rel' ≡ some (7 ∷ []))
    × Keeps (nodes ∷ means ∷ []) rel'
    × IsOn tape' rel'
    × (tape'.page_type ≡ PageType.sbq_node)
write-get_item_example =
    write-get_item pages (7 ∷ []) tape (nodes ∷ means ∷ []) tape-IsOn (omega arith) (omega arith)

resume-IsOn_example :
    (tape' : Tape) × (rel' : Relation) × (resume PageType.sbq_node (nodes ∷ means ∷ [])
      ≡ some (tape', rel'))
    × IsOn tape' rel'
    × (tape'.page_type ≡ PageType.sbq_node)
    × NoneFrom PageType.sbq_node rel' (suc tape'.current) (length rel')
    × Keeps (nodes ∷ means ∷ []) rel'
unfolding is_chained
resume-IsOn_example = resume-IsOn PageType.sbq_node (nodes ∷ means ∷ []) refl
