-- ===== src/Node.antt =====
-- pgvectorscale/src/access_method/sbq/node.rs and plain/node.rs: the nodes of the graph as they lie
-- in the index, with a fixed number of neighbor slots of which the first invalid one ends the list.
pub mod Slots
mod Tests
use pgvectorscale.Base.{
  ℕ, zero, suc, Bool, true, false, List, [], ◌∷◌, Option, none, some, ◌==◌, if◌then◌else◌, ltb,
  length, take, replicate, map,
}
use pgvectorscale.F32.{F32}
use pgvectorscale.Pointer.{Postgres, ItemPointer, IndexPointer, HeapPointer, new_invalid}
use pgvectorscale.Labels.{LabelSet, empty_set}
use pgvectorscale.Distance.{NeighborWithDistance}

infixl 5 ◌>>=◌
abbrev pub ◌>>=◌ {ℓ κ} : {A : Type ℓ} {B : Type κ} → Option A → (A → Option B) → Option B
none >>= f = none
some a >>= f = f a

pub record ClassicSbqNode : Type 0 where
  pub heap_item_pointer : HeapPointer
  pub bq_vector : List ℕ
  pub neighbor_index_pointers : List ItemPointer
  pub neighbor_vectors : List (List ℕ)

pub record LabeledSbqNode : Type 0 where
  pub heap_item_pointer : HeapPointer
  pub bq_vector : List ℕ
  pub neighbor_index_pointers : List ItemPointer
  pub labels : LabelSet

pub data SbqNode : Type 0 where
  classic : ClassicSbqNode → SbqNode
  labeled : LabeledSbqNode → SbqNode

pub record PlainNode : Type 0 where
  pub vector : List F32
  pub pq_vector : List ℕ
  pub neighbor_index_pointers : List ItemPointer
  pub heap_item_pointer : HeapPointer

-- `archived[i] = v`; `none` is the panic of an index out of bounds.
unfoldable pub write_at : List ItemPointer → ℕ → ItemPointer → Option (List ItemPointer)
write_at [] i v = none
write_at (x ∷ xs) zero v = some (v ∷ xs)
write_at (x ∷ xs) (suc i) v = do rest ← write_at xs i v; some (x ∷ rest)

-- `labels.unwrap_or_default()`
abbrev or_default : Option LabelSet → LabelSet
or_default none = empty_set
or_default (some set) = set

module _ (pg : Postgres) where
  -- `position(|p| p.block_number == InvalidBlockNumber).unwrap_or(len)`
  unfoldable pub num_neighbors : List ItemPointer → ℕ
  num_neighbors [] = 0
  num_neighbors (p ∷ ps) =
      if p.block_number == pg.invalid_block_number then 0 else suc (num_neighbors ps)

  unfoldable pub iter_neighbors : List ItemPointer → List ItemPointer
  unfolding num_neighbors
  iter_neighbors slots = take (num_neighbors slots) slots

  -- `for (i, new_neighbor) in neighbors.iter().enumerate()`
  unfoldable pub write_neighbors :
      ℕ → List ItemPointer → List ItemPointer → Option (List ItemPointer)
  unfolding write_at
  write_neighbors i [] slots = some slots
  write_neighbors i (n ∷ ns) slots = do
    slots' ← write_at slots i n
    write_neighbors (suc i) ns slots'

  -- `set_neighbors`, the same code for both kinds of node
  unfoldable pub set_neighbors :
      List NeighborWithDistance → ℕ → List ItemPointer → Option (List ItemPointer)
  unfolding write_neighbors
  set_neighbors neighbors limit slots = do
    slots' ← write_neighbors 0 (map (λ n. n.index_pointer) neighbors) slots
    if ltb (length neighbors) limit
        then write_at slots' (length neighbors) (new_invalid pg)
        else some slots'

  unfoldable pub new_sbq_node : HeapPointer → ℕ → Bool → List ℕ → Option LabelSet → SbqNode
  new_sbq_node heap_pointer limit has_labels bq_vector labels =
      let slots = replicate limit (new_invalid pg) in
      if has_labels
      then labeled (record {
        heap_item_pointer = heap_pointer;
        bq_vector = bq_vector;
        neighbor_index_pointers = slots;
        labels = or_default labels;
      })
      else (classic (record {
        heap_item_pointer = heap_pointer;
        bq_vector = bq_vector;
        neighbor_index_pointers = slots;
        neighbor_vectors = [];
      }))

  unfoldable pub new_plain_node : List F32 → HeapPointer → ℕ → PlainNode
  new_plain_node vector heap_pointer limit = record {
    vector = vector;
    pq_vector = [];
    neighbor_index_pointers = replicate limit (new_invalid pg);
    heap_item_pointer = heap_pointer;
  }

  -- A deleted node keeps its neighbors and loses its row.
  unfoldable pub is_deleted : HeapPointer → Bool
  is_deleted heap_pointer = heap_pointer.offset == pg.invalid_offset_number

  unfoldable pub delete_plain : PlainNode → PlainNode
  delete_plain n = record n { heap_item_pointer = new_invalid pg }

  unfoldable pub delete_sbq : SbqNode → SbqNode
  delete_sbq (classic n) = classic (record n { heap_item_pointer = new_invalid pg })
  delete_sbq (labeled n) = labeled (record n { heap_item_pointer = new_invalid pg })

unfoldable pub get_heap_item_pointer : SbqNode → HeapPointer
get_heap_item_pointer (classic n) = n.heap_item_pointer
get_heap_item_pointer (labeled n) = n.heap_item_pointer

unfoldable pub get_bq_vector : SbqNode → List ℕ
get_bq_vector (classic n) = n.bq_vector
get_bq_vector (labeled n) = n.bq_vector

unfoldable pub get_labels : SbqNode → Option LabelSet
get_labels (classic n) = none
get_labels (labeled n) = some n.labels

unfoldable pub get_slots : SbqNode → List ItemPointer
get_slots (classic n) = n.neighbor_index_pointers
get_slots (labeled n) = n.neighbor_index_pointers

-- the node with the slots that `neighbor_index_pointer` gave out to be written
unfoldable pub with_slots : SbqNode → List ItemPointer → SbqNode
with_slots (classic n) slots = classic (record n { neighbor_index_pointers = slots })
with_slots (labeled n) slots = labeled (record n { neighbor_index_pointers = slots })
