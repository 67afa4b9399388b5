-- ===== src/Runner/Goroutines/Invariant.antt =====
-- What holds of the goroutines of kaigaraRun in every state that they reach.
use kaigara.Base.{◌≡◌, refl, sym, ◌∙◌, inl, ◌+◌, ◌-◌, Bool, true, false, List, [], ◌∷◌, ◌++◌, arith}
use kaigara.Logs.{Beat, ten_seconds}
use kaigara.Runner.Goroutines.{
  StdinPoint, copied, broken, breaks, input_ends, refuses, Stream, HeartPoint, beating, leaving,
  stopped, System, Written, writes, hangs_up, Reads, reads, Ends, at_eof, at_closed, ended, Own,
  reads_out, reads_errors, ends_out, ends_errors, waits, supervised, quits, leaves, joins, Outside,
  writes_out, writes_errors, exits, beats_on, Step, own, outside, started, Steps, here, next,
}
use kaigara.Runner.Goroutines.Phase.{
  count, heart_count, Heard, Conserved-reads, Conserved-writes, Phase-ended, Phase-exits,
  Phase-waits, Phase-leaves, Phase-supervised, All-ten, Inv,
}

Inv-started : Inv started
Inv-started = record {
  counted = refl;
  phase = (refl, inl (refl, refl));
  out_kept = (refl, refl);
  errors_kept = (refl, refl);
  heard = tt;
}

pub Ends-publishing : {s : Stream} → Ends s → s.publishing ≡ true
Ends-publishing (at_eof h _ _ _) = h
Ends-publishing (at_closed h _) = h

none_left :
    (heart : HeartPoint) (out errors : Bool)
    → count out + count errors + heart_count heart ≡ 0
    → (heart ≡ stopped) × (out ≡ false) × (errors ≡ false)
none_left stopped false false h = (refl, refl, refl)
none_left stopped true false h = absurd (omega arith)
none_left stopped out true h = absurd (omega arith)
none_left beating out errors h = absurd (omega arith)
none_left leaving out errors h = absurd (omega arith)

Heard-beats :
    (heart : HeartPoint) (beats : List Beat)
    → heart ≡ beating
    → Heard heart beats
    → Heard heart (beats ++ (ten_seconds ∷ []))
Heard-beats beating beats h k = All-ten beats k
Heard-beats leaving beats h k = ground arith
Heard-beats stopped beats h k = ground arith

-- No stream, heartbeat or point of kaigaraRun but the one that makes the step is in what it changes.
module _ {s : System} (inv : Inv s) where
  stdin-Inv : (point : StdinPoint) → Inv (record s { stdin = point })
  stdin-Inv point = record {
    counted = inv.counted;
    phase = inv.phase;
    out_kept = inv.out_kept;
    errors_kept = inv.errors_kept;
    heard = inv.heard;
  }

  reads_out-Inv :
      {connected : Bool} {x : Stream} → Reads connected s.out x → Inv (record s { out = x })
  reads_out-Inv {connected} (reads chunk rest running readable split some_bytes fits) = record {
    counted = inv.counted;
    phase = inv.phase;
    out_kept = (Conserved-reads connected chunk rest s.out split inv.out_kept.0, inv.out_kept.1);
    errors_kept = inv.errors_kept;
    heard = inv.heard;
  }

  reads_errors-Inv :
      {connected : Bool} {x : Stream} → Reads connected s.errors x → Inv (record s { errors = x })
  reads_errors-Inv {connected} (reads chunk rest running readable split some_bytes fits) = record {
    counted = inv.counted;
    phase = inv.phase;
    out_kept = inv.out_kept;
    errors_kept =
        (Conserved-reads connected chunk rest s.errors split inv.errors_kept.0, inv.errors_kept.1);
    heard = inv.heard;
  }

  writes_out-Inv : {x : Stream} → Written s.out x → Inv (record s { out = x })
  writes_out-Inv (writes text open_end readable room) = record {
    counted = inv.counted;
    phase = inv.phase;
    out_kept = (Conserved-writes text s.out inv.out_kept.0, inv.out_kept.1);
    errors_kept = inv.errors_kept;
    heard = inv.heard;
  }
  writes_out-Inv hangs_up = record {
    counted = inv.counted;
    phase = inv.phase;
    out_kept = inv.out_kept;
    errors_kept = inv.errors_kept;
    heard = inv.heard;
  }

  writes_errors-Inv : {x : Stream} → Written s.errors x → Inv (record s { errors = x })
  writes_errors-Inv (writes text open_end readable room) = record {
    counted = inv.counted;
    phase = inv.phase;
    out_kept = inv.out_kept;
    errors_kept = (Conserved-writes text s.errors inv.errors_kept.0, inv.errors_kept.1);
    heard = inv.heard;
  }
  writes_errors-Inv hangs_up = record {
    counted = inv.counted;
    phase = inv.phase;
    out_kept = inv.out_kept;
    errors_kept = inv.errors_kept;
    heard = inv.heard;
  }

  out_done-Inv : Ends s.out → Inv (record s { out = ended s.out; wait_group = s.wait_group - 1 })
  out_done-Inv e = record {
    counted = omega (arith, rw (Ends-publishing e) at inv.counted);
    phase =
        (Phase-ended s.main s.reaped s.wait_done s.status s.heart s.out.publishing
          s.errors.publishing inv.phase).0;
    out_kept = inv.out_kept;
    errors_kept = inv.errors_kept;
    heard = inv.heard;
  }

  errors_done-Inv :
      Ends s.errors → Inv (record s { errors = ended s.errors; wait_group = s.wait_group - 1 })
  errors_done-Inv e = record {
    counted = omega (arith, rw (Ends-publishing e) at inv.counted);
    phase =
        (Phase-ended s.main s.reaped s.wait_done s.status s.heart s.out.publishing
          s.errors.publishing inv.phase).1;
    out_kept = inv.out_kept;
    errors_kept = inv.errors_kept;
    heard = inv.heard;
  }

  all_ended :
      s.wait_group ≡ 0
      → (s.heart ≡ stopped) × (s.out.publishing ≡ false) × (s.errors.publishing ≡ false)
  all_ended all = none_left s.heart s.out.publishing s.errors.publishing (sym inv.counted ∙ all)

  pub Own-Inv : {connected : Bool} {t : System} → Own connected s t → Inv t
  Own-Inv (reads_out r) = reads_out-Inv r
  Own-Inv (reads_errors r) = reads_errors-Inv r
  Own-Inv (ends_out e) = out_done-Inv e
  Own-Inv (ends_errors e) = errors_done-Inv e
  Own-Inv (waits e exited not_yet) = record {
    counted = inv.counted;
    phase =
        Phase-waits s.main s.reaped s.wait_done s.status s.heart s.out.publishing
          s.errors.publishing e not_yet exited inv.phase;
    out_kept = (inv.out_kept.0, refl);
    errors_kept = (inv.errors_kept.0, refl);
    heard = inv.heard;
  }
  Own-Inv (supervised e stage given) = record {
    counted = inv.counted;
    phase =
        Phase-supervised s.main s.reaped s.wait_done s.status s.heart s.out.publishing
          s.errors.publishing e stage given inv.phase;
    out_kept = inv.out_kept;
    errors_kept = inv.errors_kept;
    heard = inv.heard;
  }
  Own-Inv (quits e stage beats) = record {
    counted = rw beats at inv.counted;
    phase = let (_, reaped, is) = rw stage at inv.phase in (λ h. ground arith, reaped, is);
    out_kept = inv.out_kept;
    errors_kept = inv.errors_kept;
    heard = (s.beats, rw beats at inv.heard, refl);
  }
  Own-Inv (leaves stage) = record {
    counted = omega (arith, rw stage at inv.counted);
    phase =
        Phase-leaves s.main s.reaped s.wait_done s.status s.heart s.out.publishing
          s.errors.publishing stage inv.phase;
    out_kept = inv.out_kept;
    errors_kept = inv.errors_kept;
    heard = rw stage at inv.heard;
  }
  Own-Inv (joins e stage all) = record {
    counted = inv.counted;
    phase =
        let (_, reaped, is) = rw stage at inv.phase in
        let (quiet_heart, out, errors) = all_ended all in
        (quiet_heart, reaped, out, errors, e, is, refl);
    out_kept = inv.out_kept;
    errors_kept = inv.errors_kept;
    heard = inv.heard;
  }
  Own-Inv (breaks e copies exited) = stdin-Inv broken

  Outside-Inv : {t : System} → Outside s t → Inv t
  Outside-Inv (writes_out w) = writes_out-Inv w
  Outside-Inv (writes_errors w) = writes_errors-Inv w
  Outside-Inv (exits e running) = record {
    counted = inv.counted;
    phase =
        Phase-exits s.main s.reaped s.wait_done s.status s.heart s.out.publishing
          s.errors.publishing e running inv.phase;
    out_kept = inv.out_kept;
    errors_kept = inv.errors_kept;
    heard = inv.heard;
  }
  Outside-Inv (beats_on stage) = record {
    counted = inv.counted;
    phase = inv.phase;
    out_kept = inv.out_kept;
    errors_kept = inv.errors_kept;
    heard = Heard-beats s.heart s.beats stage inv.heard;
  }
  Outside-Inv (input_ends copies) = stdin-Inv copied
  Outside-Inv (refuses copies) = stdin-Inv broken

  pub Step-Inv : {connected : Bool} {t : System} → Step connected s t → Inv t
  Step-Inv (own alive o) = Own-Inv o
  Step-Inv (outside alive o) = Outside-Inv o

pub Steps-Inv : {connected : Bool} {s t : System} → Inv s → Steps connected s t → Inv t
Steps-Inv inv here = inv
Steps-Inv inv (next steps step) = Step-Inv (Steps-Inv inv steps) step

pub Reach-Inv : {connected : Bool} {t : System} → Steps connected started t → Inv t
Reach-Inv steps = Steps-Inv Inv-started steps
