-- ===== src/Scan/Tuples.antt =====
-- `amgettuple` and `get_tuple` of scan.rs for an index with SBQ storage: the row that a scan gives to
-- PostgreSQL, and the page of its node, which stays pinned. The arm of plain storage is left out.
use pgvectorscale.Base.{
  ℕ, ◌≤◌, ◌<◌, Bool, true, false, List, Option, none, some, ◌≡◌, refl, sym, subst,
}
use pgvectorscale.Base.Loop.{Outcome, done, panic, out_of_fuel}
use pgvectorscale.Pointer.{Postgres, HeapPointer, IndexPointer}
use pgvectorscale.Node.{SbqNode}
use pgvectorscale.Search.{SbqSearchDistanceMeasure}
use pgvectorscale.Search.Ends.{IsUniverse}
use pgvectorscale.Scan.{Arithmetic, TsvResponseIterator, Item, FullDistance, next_with_resort}
use pgvectorscale.Scan.Expanded.{Grows}
use pgvectorscale.Scan.Buffer.{IsResorting}
use pgvectorscale.Scan.Resort.{IsClosest, returned_with, next_with_resort-IsClosest}

-- `TSVScanState` with the iterator of its SBQ storage, and the fields of PostgreSQL's scan that
-- `get_tuple` sets; the buffer is the block that is pinned.
pub record TsvScanState : Type 0 where
  pub iter : TsvResponseIterator
  pub last_buffer : Option ℕ
  pub xs_heaptid : Option HeapPointer
  pub xs_recheckorderby : Bool

unfoldable pub get_tuple : Item → TsvScanState → Bool × TsvScanState
get_tuple none st = (false, record st { last_buffer = none; xs_recheckorderby = false })
get_tuple (some (heap_pointer, index_pointer)) st = (
  true,
  record st {
    last_buffer = some index_pointer.block_number;
    xs_heaptid = some heap_pointer;
    xs_recheckorderby = false;
  },
)

module _ (pg : Postgres) (query : SbqSearchDistanceMeasure) (index : IndexPointer → SbqNode)
    (fl : Arithmetic) (full_distance : FullDistance) where
  -- the arm of SBQ storage
  unfoldable pub amgettuple : ℕ → TsvScanState → Outcome (Bool × TsvScanState)
  unfolding next_with_resort get_tuple
  amgettuple fuel st = elim (next_with_resort pg query index fl full_distance fuel st.iter) [
    | panic ↦ panic
    | out_of_fuel ↦ out_of_fuel
    | done (item, iter) ↦ done (get_tuple item (record st { iter = iter }))
  ]

module _ (pg : Postgres) (query : SbqSearchDistanceMeasure) (index : IndexPointer → SbqNode)
    (no_filter : Bool) (universe : List IndexPointer)
    (u : IsUniverse pg query index no_filter universe) (fl : Arithmetic)
    (full_distance : FullDistance) where
  -- What PostgreSQL is given for an item of the scan: the answer that there is no row, with nothing
  -- pinned, or the row, with the page of its node pinned.
  pub data IsPinned (st : TsvScanState) : Item → Bool → Type 0 where
    over : st.last_buffer ≡ none → IsPinned st none false
    row :
        (heap : HeapPointer) (ip : IndexPointer)
        → st.xs_heaptid ≡ some heap
        → st.last_buffer ≡ some ip.block_number
        → IsPinned st (some (heap, ip)) true

  get_tuple-IsPinned :
      (item : Item) (st : TsvScanState)
      → IsPinned (get_tuple item st).1 item (get_tuple item st).0
        × ((get_tuple item st).1.iter ≡ st.iter)
        × ((get_tuple item st).1.xs_recheckorderby ≡ false)
  unfolding get_tuple
  get_tuple-IsPinned none st = (over refl, refl, refl)
  get_tuple-IsPinned (some (heap, ip)) st = (row heap ip refl refl, refl, refl)

  -- A scan of an index with SBQ storage, with a buffer, in order over a finite set of nodes that is
  -- closed under the edges and readable, and with as much fuel as there are nodes that can still
  -- come: a call returns. It says that there is no row, and then no page is pinned, the buffer is
  -- empty and no node is left in the search; or it gives a row that is not deleted and whose measured
  -- distance is no farther than that of any row left in the buffer, and then the page of its node is
  -- pinned. The order of the rows needs no check, and the next call finds the scan in order again,
  -- with no node lost.
  pub amgettuple-IsPinned :
      (fuel n : ℕ) (returned : List IndexPointer) (st : TsvScanState)
      → 0 < st.iter.resort_size
      → IsResorting pg query index no_filter universe u fl full_distance n returned st.iter
      → n ≤ fuel
      → (found : Bool) × (st' : TsvScanState) × (item : Item) × (amgettuple pg query index fl
            full_distance fuel st
          ≡ done (found, st'))
        × IsPinned st' item found
        × IsClosest pg query index no_filter universe u fl full_distance st'.iter item
        × IsResorting pg query index no_filter universe u fl full_distance n
            (returned_with pg query index no_filter universe u fl full_distance item returned)
            st'.iter
        × Grows pg query index no_filter st.iter.lsr st'.iter.lsr
        × (st'.xs_recheckorderby ≡ false)
  unfolding amgettuple
  amgettuple-IsPinned fuel n returned st positive r f =
      let (item, s', run, r', close, kept, grows) =
        next_with_resort-IsClosest pg query index no_filter universe u fl full_distance fuel n
          returned st.iter positive r f in
      let st1 : TsvScanState = record st { iter = s' } in
      let (pinned, same, checked) = get_tuple-IsPinned item st1 in
      (
        (get_tuple item st1).0,
        (get_tuple item st1).1,
        item,
        rw (amgettuple, run) refl,
        pinned,
        subst
            (λ (a : TsvResponseIterator).
              IsClosest pg query index no_filter universe u fl full_distance a item)
            (sym same) close,
        subst
            (IsResorting pg query index no_filter universe u fl full_distance n
              (returned_with pg query index no_filter universe u fl full_distance item returned))
            (sym same) r',
        subst (λ (a : TsvResponseIterator). Grows pg query index no_filter st.iter.lsr a.lsr)
            (sym same) grows,
        checked,
      )
