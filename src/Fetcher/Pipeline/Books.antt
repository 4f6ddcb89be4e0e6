-- ===== src/Fetcher/Pipeline/Books.antt =====
-- services/fetcher.go, serveAligned: where the result of each chunk is, over every interleaving.
use s3_cache.Prelude.{ℕ, ◌+◌, ◌≡◌, refl, ap, inl, Option, none, some, Bool, true, arith, Result}
use native.Mathlib.Decide.{dec_lt}
use s3_cache.Prelude.Int.{ℤ}
use s3_cache.Singleflight.{update}
use s3_cache.Chunk.{ChunkResult, WriteError, write_slice}
use s3_cache.Http.{Writer, Error, write_body}
use s3_cache.WriteGuard.{WriteGuard, end}
use s3_cache.Fetcher.Dispatch.{
  idle, queued, admitted, new_dispatch, start_next, admit_chunk, arrive, write_head, end_context,
  can_start,
}
use s3_cache.Fetcher.Dispatch.Order.{Run, Run-Inv}
use s3_cache.Fetcher.Serve.{
  ServeError, fetch_failed, write_failed, request_cancelled, Job, n_chunks, is_buffer, flushed,
}
use s3_cache.Fetcher.Pipeline.{
  reading, writing, aborting, returned, Pipeline, new_pipeline, on_dispatch, hand_over, begin_write,
  start_abort, take_error, after_write, end_write, return_error, return_ok, AllDone, Serving,
  begins, starts, admits, leaves, hands_over, takes, takes_error, stops, ends_write, fails,
  succeeds,
}
use s3_cache.Fetcher.Pipeline.Account.{Books, in_hand, at_work, cleaned_up, head_arrived}

hand_kept :
    (e : ServeError) (written i : ℕ)
    → in_hand (returned (some e) none) written i ≡ in_hand (aborting e) written i
hand_kept (fetch_failed e) written i = refl
hand_kept (write_failed why) written i = refl
hand_kept request_cancelled written i = refl

module _ {workers : ℤ} {j : Job} {s : Pipeline} (b : Books workers j s) where
  start_next_on-Books : can_start s.dispatch ≡ true → Books workers j (on_dispatch start_next s)
  unfolding on_dispatch start_next can_start
  start_next_on-Books h = record {
    run = Run.starts h b.run;
    accounted = λ i. ground (arith, b.accounted i, (Run-Inv b.run).fresh i);
    closed_before = b.closed_before;
    ahead = b.ahead;
    cut = b.cut;
    over = λ f k p. absurd (ground (arith, h, (b.over f k p).done.halted));
  }

  admit_chunk_on-Books :
      (i : ℕ) → s.dispatch.phases i ≡ queued → Books workers j (on_dispatch (admit_chunk i) s)
  unfolding on_dispatch admit_chunk
  admit_chunk_on-Books i h = record {
    run = Run.admits i h b.run;
    accounted = λ k. ground (arith, b.accounted k, h);
    closed_before = b.closed_before;
    ahead = b.ahead;
    cut = b.cut;
    over = λ f k p. absurd (((b.over f k p).done.quiet i).0 h);
  }

  end_context_on-Books : Books workers j (on_dispatch end_context s)
  unfolding on_dispatch end_context
  end_context_on-Books = record {
    run = Run.ends b.run;
    accounted = b.accounted;
    closed_before = b.closed_before;
    ahead = b.ahead;
    cut = λ e p. refl;
    over = λ f k p.
        let o = b.over f k p in
        record { done = record { halted = inl refl; quiet = o.done.quiet }; emptied = o.emptied };
  }

  hand_over-Books :
      (i : ℕ) (r : Result Error (ChunkResult Error)) (now : ℤ)
      → s.dispatch.phases i ≡ admitted
      → Books workers j (hand_over j i r now s)
  unfolding hand_over arrive
  hand_over-Books i r now h = record {
    run = Run.arrives i h b.run;
    accounted = λ k. ground (arith, b.accounted k, h);
    closed_before = b.closed_before;
    ahead = b.ahead;
    cut = b.cut;
    over = λ f k p. absurd (((b.over f k p).done.quiet i).1 h);
  }

  begin_write-Books :
      (cr : ChunkResult Error) (now : ℤ)
      → s.place ≡ reading
      → s.channels s.dispatch.written ≡ some cr
      → Books workers j (begin_write j cr now s)
  unfolding begin_write
  begin_write-Books cr now p h = record {
    run = b.run;
    accounted = λ k. ground (arith, b.accounted k, p, h);
    closed_before = b.closed_before;
    ahead = λ w. b.ahead (ap at_work p);
    cut = λ e q. absurd (cc);
    over = λ f k q. absurd (cc);
  }

  take_error-Books :
      (cr : ChunkResult Error) (e : Error)
      → s.place ≡ reading
      → s.channels s.dispatch.written ≡ some cr
      → Books workers j (take_error e s)
  unfolding take_error end_context
  take_error-Books cr e p h = record {
    run = Run.ends b.run;
    accounted = λ k. ground (arith, b.accounted k, p, h);
    closed_before = b.closed_before;
    ahead = λ w. absurd (cc);
    cut = λ e' q. refl;
    over = λ f k q. absurd (cc);
  }

  stop-Books : s.place ≡ reading → Books workers j (start_abort request_cancelled s)
  unfolding start_abort end_context
  stop-Books p = record {
    run = Run.ends b.run;
    accounted = λ k. ground (arith, b.accounted k, p);
    closed_before = b.closed_before;
    ahead = λ w. absurd (cc);
    cut = λ e' q. refl;
    over = λ f k q. absurd (cc);
  }

  end_write-Books :
      (cr : ChunkResult Error) (flush_ok : Bool)
      → s.place ≡ writing cr
      → Books workers j (end_write j cr flush_ok s)
  unfolding end_write after_write write_head end_context
  end_write-Books cr flush_ok p =
      after (flushed flush_ok (write_slice cr j.start j.stop s.writer.room).1)
    where
      after :
          (e : Option WriteError)
          → Books workers j (
              after_write e (record s {
                guard = end (is_buffer cr.via) s.guard;
                writer = write_body (write_slice cr j.start j.stop s.writer.room).0 s.writer;
                closed = update s.closed s.dispatch.written (s.closed s.dispatch.written + 1);
              }))
      after none = record {
        run = Run.writes (head_arrived b cr p) b.run;
        accounted = λ k. ground (arith, b.accounted k, p);
        closed_before = λ k h. ground (arith, b.accounted k, p, b.closed_before k);
        ahead = λ w k h. ground (arith, b.ahead (ap at_work p) k);
        cut = λ e q. absurd (cc);
        over = λ f k q. absurd (cc);
      }
      after (some why) = record {
        run = Run.ends b.run;
        accounted = λ k. ground (arith, b.accounted k, p);
        closed_before = λ k h. ground (arith, b.closed_before k);
        ahead = λ w. absurd (cc);
        cut = λ e q. refl;
        over = λ f k q. absurd (cc);
      }

  -- What the clean-up leaves of chunk `i`.
  return_error-Books :
      (e : ServeError)
      → s.place ≡ aborting e
      → AllDone s.dispatch
      → Books workers j (return_error e s)
  unfolding return_error
  return_error-Books e p done = record {
    run = b.run;
    accounted =
        λ k. ground (arith, b.accounted k, p, cleaned_up b k, hand_kept e s.dispatch.written k);
    closed_before = λ k h. ground (arith, b.closed_before k h, b.accounted k, cleaned_up b k);
    ahead = λ w. absurd (cc);
    cut = λ e' q. absurd (cc);
    over = λ f k q. record { done = done; emptied = λ i. (cleaned_up b i).0 };
  }

  return_ok-Books :
      s.place ≡ reading
      → s.dispatch.written ≡ n_chunks j
      → AllDone s.dispatch
      → Books workers j (return_ok j s)
  unfolding return_ok
  return_ok-Books p all done =
      let v = Run-Inv b.run in
      record {
        run = b.run;
        accounted = λ k. ground (arith, b.accounted k, p);
        closed_before = b.closed_before;
        ahead = λ w. absurd (cc);
        cut = λ e' q. absurd (cc);
        over = λ f k q. record {
          done = done;
          emptied = λ i. elim (dec_lt i s.dispatch.written) [
            | yes lt ↦ ground (arith, b.accounted i, b.closed_before i lt, v.finished i lt)
            | no ge ↦
                let unused : s.dispatch.phases i ≡ idle =
                  v.fresh i (omega (arith, v.within, all)) in
                ground (arith, b.accounted i, unused)
          ];
        };
      }

pub Serving-Books :
    {workers : ℤ} {j : Job} {g : WriteGuard} {w : Writer} {P : ℕ → ChunkResult Error → Type 0}
    {s : Pipeline}
    → Serving workers j g w P s
    → Books workers j s
unfolding new_pipeline new_dispatch
Serving-Books begins = record {
  run = Run.start;
  accounted = λ i. refl;
  closed_before = λ i h. absurd (omega arith);
  ahead = λ w i h. refl;
  cut = λ e q. absurd (cc);
  over = λ f k q. absurd (cc);
}
Serving-Books (starts h r) = start_next_on-Books (Serving-Books r) h
Serving-Books (admits i h r) = admit_chunk_on-Books (Serving-Books r) i h
Serving-Books (leaves r) = end_context_on-Books (Serving-Books r)
Serving-Books (hands_over i res now h ok_res r) = hand_over-Books (Serving-Books r) i res now h
Serving-Books (takes cr now p h fine r) = begin_write-Books (Serving-Books r) cr now p h
Serving-Books (takes_error cr e p h bad r) = take_error-Books (Serving-Books r) cr e p h
Serving-Books (stops p more gone r) = stop-Books (Serving-Books r) p
Serving-Books (ends_write cr flush_ok p r) = end_write-Books (Serving-Books r) cr flush_ok p
Serving-Books (fails e p done r) = return_error-Books (Serving-Books r) e p done
Serving-Books (succeeds p more all done r) = return_ok-Books (Serving-Books r) p all done
