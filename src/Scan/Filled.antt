-- ===== src/Scan/Filled.antt =====
-- The loop that fills the buffer of a scan ends with a full buffer or the end of the search.
use pgvectorscale.Base.{
  ℕ, zero, suc, ◌≤◌, ◌<◌, Bool, true, List, none, some, ◌≡◌, ◌⊎◌, inl, inr, refl, ◌∙◌, arith, ltb,
  length, Bool-cases,
}
use pgvectorscale.Base.Loop.{done}
use pgvectorscale.Pointer.{Postgres, HeapPointer, IndexPointer}
use pgvectorscale.Node.{SbqNode}
use pgvectorscale.Search.{SbqSearchDistanceMeasure}
use pgvectorscale.Search.Ends.{IsUniverse}
use pgvectorscale.Scan.{Arithmetic, TsvResponseIterator, Item, FullDistance, next, resort, fill}
use pgvectorscale.Scan.Expanded.{Grows}
use pgvectorscale.Scan.Ahead.{IsOver}
use pgvectorscale.Scan.Running.{Given, exhausted, live}
use pgvectorscale.Scan.Steps.{next_ends}
use pgvectorscale.Scan.Buffer.{IsResorting, IsFilled, same_buffer, resort-IsFilled, IsFilled-trans}

module _ (pg : Postgres) (query : SbqSearchDistanceMeasure) (index : IndexPointer → SbqNode)
    (no_filter : Bool) (universe : List IndexPointer)
    (u : IsUniverse pg query index no_filter universe) (fl : Arithmetic)
    (full_distance : FullDistance) where
  fill-none :
      (fuel rounds : ℕ) (s s1 : TsvResponseIterator)
      → ltb (length s.resort_buffer) s.resort_size ≡ true
      → next pg query index fl full_distance fuel s ≡ done (none, s1)
      → fill pg query index fl full_distance fuel (suc rounds) s ≡ done s1
  unfolding fill
  fill-none fuel rounds s s1 room run = rw (room, fill, run) refl

  fill-some :
      (fuel rounds : ℕ) (s s1 : TsvResponseIterator) (heap : HeapPointer) (ip : IndexPointer)
      → ltb (length s.resort_buffer) s.resort_size ≡ true
      → next pg query index fl full_distance fuel s ≡ done (some (heap, ip), s1)
      → fill pg query index fl full_distance fuel (suc rounds) s
        ≡ fill pg query index fl full_distance fuel rounds
            (resort pg query index fl full_distance heap ip s1)
  unfolding fill
  fill-some fuel rounds s s1 heap ip room run = rw (room, fill, run) refl

  -- Why the loop stops: the buffer is full, or nothing more can come out of the search.
  abbrev pub IsStopped : TsvResponseIterator → Type 0
  IsStopped s =
      (s.resort_size ≤ length s.resort_buffer) ⊎ IsOver pg query index no_filter universe u s.lsr

  -- One round, over what the rounds after it leave.
  round-IsFilled :
      (fuel rounds n : ℕ) (returned : List IndexPointer) (s s1 : TsvResponseIterator) (item : Item)
      (r : IsResorting pg query index no_filter universe u fl full_distance n returned s)
      → ltb (length s.resort_buffer) s.resort_size ≡ true
      → next pg query index fl full_distance fuel s ≡ done (item, s1)
      → s1.resort_buffer ≡ s.resort_buffer
      → s1.resort_size ≡ s.resort_size
      → Grows pg query index no_filter s.lsr s1.lsr
      → Given pg query index no_filter universe u n r.seen s1 item
      → ((m : ℕ) (t : TsvResponseIterator)
          → IsResorting pg query index no_filter universe u fl full_distance m returned t
          → m < n
          → (t' : TsvResponseIterator) × (fill pg query index fl full_distance fuel rounds t
              ≡ done t')
            × IsFilled pg query index no_filter universe u fl full_distance m returned t t'
            × IsStopped t')
      → (s' : TsvResponseIterator) × (fill pg query index fl full_distance fuel (suc rounds) s
          ≡ done s')
        × IsFilled pg query index no_filter universe u fl full_distance n returned s s'
        × IsStopped s'
  round-IsFilled fuel rounds n returned s s1 _ r room run b z grown (exhausted r1 over) later = (
    s1,
    fill-none fuel rounds s s1 room run,
    same_buffer pg query index no_filter universe u fl full_distance n n returned r.seen s s1 r r1
        r.accounted b z grown,
    inr over,
  )
  round-IsFilled fuel rounds n returned s s1 _ r room run b z grown (live heap ip m alive r1 less)
        later =
      let t = resort pg query index fl full_distance heap ip s1 in
      let one =
        resort-IsFilled pg query index no_filter universe u fl full_distance m n returned heap ip s
          s1 r alive (ground arith) r1 b z grown in
      let (s', e, two, stopped) = later m t one.resorting less in
      (
        s',
        fill-some fuel rounds s s1 heap ip room run ∙ e,
        IsFilled-trans pg query index no_filter universe u fl full_distance m n returned s t s'
            (omega arith) one two,
        stopped,
      )

  pub fill_ends :
      (fuel rounds n : ℕ) (returned : List IndexPointer) (s : TsvResponseIterator)
      → IsResorting pg query index no_filter universe u fl full_distance n returned s
      → n ≤ fuel
      → suc n ≤ rounds
      → (s' : TsvResponseIterator) × (fill pg query index fl full_distance fuel rounds s ≡ done s')
        × IsFilled pg query index no_filter universe u fl full_distance n returned s s'
        × IsStopped s'
  unfolding fill
  fill_ends fuel zero n returned s r f h = absurd (omega arith)
  fill_ends fuel (suc rounds) n returned s r f h =
      elim (Bool-cases (ltb (length s.resort_buffer) s.resort_size)) [
        | inr full ↦ (
          s,
          rw (fill, full) refl,
          record { resorting = r; kept = λ d i. i; size = refl; grows = λ p i. i },
          inl (ground arith),
        )
        | inl room ↦
            let (item, s1, run, gave) =
              next_ends pg query index no_filter universe u fl full_distance fuel n r.seen s
                r.running f in
            round-IsFilled fuel rounds n returned s s1 item r room run gave.buffer gave.size
              gave.grows gave.given
              (λ m t q less. fill_ends fuel rounds m returned t q (omega arith) (omega arith))
      ]
