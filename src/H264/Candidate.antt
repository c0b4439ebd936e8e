-- ===== src/H264/Candidate.antt =====
-- internal/jetkvm/video.go: what the candidates that a stream returns look like (accept, process).
use jetkvm_mcp.Base.{
  ℕ, ◌+◌, ◌≤◌, Bool, true, false, Option, none, some, List, [], ◌∷◌, ◌++◌, ◌≡◌, length, arith,
  Option-cases, inl, inr, length-append, Bool-cases,
}
use jetkvm_mcp.Base.Assoc.{lookup}
use jetkvm_mcp.H264.Nal.{Bytes, annex_b_start_code}
use jetkvm_mcp.H264.Sequence.{
  Packet, Pending, ObservedPacket, Ordered, add16, sub16, complete, incomplete, invalid,
  ordered_packets, observe_sequence, sequence_within_reorder_window,
}
use jetkvm_mcp.H264.AccessUnit.{
  Unit264, Codec, Parsed, bad, short, good, depacketize_h264_access_unit,
}
use jetkvm_mcp.H264.Parameters.{
  Parameters, accept, valid_h264_parameters, total_size, annex_b_of, without_parameters,
  idr_candidate, or_else,
}
use jetkvm_mcp.H264.State.{Stream, Drain, put_pending, reject_completed}
use jetkvm_mcp.H264.Drain.{finish_drain_unit}
use jetkvm_mcp.H264.Ending.{
  accept_unit, deliver, leave_pending, transition_ordered, transition_last, close_unit,
  transition_of, finish_at_timestamp_transition, expire,
}
use jetkvm_mcp.H264.Process.{
  insert_packet, mark, try_ordered, try_complete, admit, duplicate_or, join_pending, process_ready,
  process_draining, process_rejected, other_pending, process_with, process_behind, process,
}

total_size-length :
    (nalus : List Bytes) (n m : ℕ) → total_size nalus n ≡ some m → m ≡ n + length (annex_b_of nalus)
unfolding total_size annex_b_of
total_size-length [] n m h = ground arith
total_size-length (x ∷ xs) n m h = ground (
  arith,
  total_size-length xs (n + (4 + length x)) m,
  length-append annex_b_start_code (x ++ annex_b_of xs),
  length-append x (annex_b_of xs),
)

total_size-bound :
    (nalus : List Bytes) (n m : ℕ) → n ≤ 4194304 → total_size nalus n ≡ some m → m ≤ 4194304
unfolding total_size
total_size-bound [] n m b h = ground arith
total_size-bound (x ∷ xs) n m b h = ground (arith, total_size-bound xs (n + (4 + length x)) m)

-- Bytes that carry a pair of parameter sets that validH264Parameters passes, and then other units, in
-- Annex B form, within the bound of an access unit.
pub record IsCandidate (data_ : Bytes) : Type 0 where
  pub sps : Bytes
  pub pps : Bytes
  pub nalus : List Bytes
  pub valid : valid_h264_parameters (some sps) (some pps) ≡ true
  pub encoded : data_ ≡ annex_b_of (sps ∷ pps ∷ without_parameters nalus)
  pub bounded : length data_ ≤ 4194304

idr_candidate-IsCandidate :
    (old : Parameters) (sps pps : Option Bytes) (nalus : List Bytes) (data_ : Bytes)
    → valid_h264_parameters sps pps ≡ true
    → (idr_candidate old sps pps nalus).candidate ≡ some data_
    → IsCandidate data_
idr_candidate-IsCandidate old none pps nalus d v e = absurd (cc)
idr_candidate-IsCandidate old (some s) none nalus d v e = absurd (cc)
idr_candidate-IsCandidate old (some s) (some p) nalus d v e =
    let all = s ∷ p ∷ without_parameters nalus in
    elim (Option-cases (total_size all 0)) [
      | inl n ↦ absurd (ground arith)
      | inr (m, t) ↦
          let l = total_size-length all 0 m t in
          let q : d ≡ annex_b_of all = ground arith in
          record {
            sps = s;
            pps = p;
            nalus = nalus;
            valid = v;
            encoded = q;
            bounded = ground (arith, total_size-bound all 0 m);
          }
    ]

accept-IsCandidate :
    (u : Unit264) (want : Bool) (old : Parameters) (data_ : Bytes)
    → (accept u want old).candidate ≡ some data_
    → IsCandidate data_
unfolding accept
accept-IsCandidate u want old d e =
    let sps = or_else u.latest_sps old.sps in
    let pps = or_else u.latest_pps old.pps in
    idr_candidate-IsCandidate old sps pps u.nalus d (ground arith) (ground arith)

-- What a call returns is a candidate in this sense.
abbrev pub IsSoundCandidate : Option Bytes → Type 0
IsSoundCandidate r = (d : Bytes) → r ≡ some d → IsCandidate d

none-IsSoundCandidate : IsSoundCandidate none
none-IsSoundCandidate d e = absurd (cc)

accept_unit-IsSoundCandidate :
    (u : Unit264) (w : Bool) (o g : ℕ) (s : Stream)
    → IsSoundCandidate (accept_unit u w o g s).candidate
unfolding accept_unit
accept_unit-IsSoundCandidate u w o g s d e = accept-IsCandidate u w s.parameters d e

deliver-IsSoundCandidate :
    (n w o : ℕ) (want : Bool) (p : Pending) (s : Stream) (r : Parsed Unit264)
    → IsSoundCandidate (deliver n w o want p s r).candidate
deliver-IsSoundCandidate n w o want p s bad d e = none-IsSoundCandidate d e
deliver-IsSoundCandidate n w o want p s short d e = none-IsSoundCandidate d e
deliver-IsSoundCandidate n w o want p s (good u) d e =
    let left = leave_pending n p s in
    accept_unit-IsSoundCandidate u want o p.min_generation left d (ground arith)

transition_ordered-IsSoundCandidate :
    (c : Codec) (n w o : ℕ) (want : Bool) (p : Pending) (s : Stream) (r : Ordered)
    → IsSoundCandidate (transition_ordered c n w o want p s r).candidate
transition_ordered-IsSoundCandidate c n w o want p s invalid = none-IsSoundCandidate
transition_ordered-IsSoundCandidate c n w o want p s incomplete = none-IsSoundCandidate
transition_ordered-IsSoundCandidate c n w o want p s (complete ps) =
    deliver-IsSoundCandidate n w o want p s (depacketize_h264_access_unit c ps)

transition_last-IsSoundCandidate :
    (c : Codec) (n w o : ℕ) (want : Bool) (p : Pending) (s : Stream) (r : Option ObservedPacket)
    → IsSoundCandidate (transition_last c n w o want p s r).candidate
transition_last-IsSoundCandidate c n w o want p s none = none-IsSoundCandidate
transition_last-IsSoundCandidate c n w o want p s (some last) =
    let closed = close_unit (sub16 n 1) last p in
    transition_ordered-IsSoundCandidate c n w o want closed (put_pending (some closed) s)
      (ordered_packets closed)

transition_of-IsSoundCandidate :
    (c : Codec) (n w o : ℕ) (want : Bool) (s : Stream) (p : Option Pending)
    → IsSoundCandidate (transition_of c n w o want s p).candidate
transition_of-IsSoundCandidate c n w o want s none d e = none-IsSoundCandidate d e
transition_of-IsSoundCandidate c n w o want s (some p) d e =
    transition_last-IsSoundCandidate c n w o want p s (lookup (sub16 n 1) p.packets) d
      (ground arith)

try_ordered-IsSoundCandidate :
    (c : Codec) (w o : ℕ) (want : Bool) (p : Pending) (s : Stream) (r : Ordered)
    → IsSoundCandidate (try_ordered c w o want p s r).candidate
try_ordered-IsSoundCandidate c w o want p s invalid d e = none-IsSoundCandidate d e
try_ordered-IsSoundCandidate c w o want p s incomplete d e = none-IsSoundCandidate d e
try_ordered-IsSoundCandidate c w o want p s (complete ps) d e =
    deliver-IsSoundCandidate (add16 p.marker 1) w o want p s (depacketize_h264_access_unit c ps) d
      (ground arith)

try_complete-IsSoundCandidate :
    (c : Codec) (k : Packet) (w o : ℕ) (want : Bool) (p : Pending) (s : Stream)
    → IsSoundCandidate (try_complete c k w o want p s).candidate
unfolding try_complete
try_complete-IsSoundCandidate c k w o want p s d e =
    let m = mark k p in
    try_ordered-IsSoundCandidate c w o want m (put_pending (some m) s) (ordered_packets m) d
      (ground arith)

admit-IsSoundCandidate :
    (c : Codec) (k : Packet) (g w o : ℕ) (want : Bool) (s : Stream) (r : Bool × Pending)
    → IsSoundCandidate (admit c k g w o want s r).candidate
admit-IsSoundCandidate c k g w o want s (false, p) d e = none-IsSoundCandidate d e
admit-IsSoundCandidate c k g w o want s (true, p) d e =
    let seen = observe_sequence k.sequence_number p in
    try_complete-IsSoundCandidate c k w o want (insert_packet k g o seen) s d (ground arith)

duplicate_or-IsSoundCandidate :
    (c : Codec) (k : Packet) (g w o : ℕ) (want : Bool) (s : Stream) (p : Pending)
    (r : Option ObservedPacket)
    → IsSoundCandidate (duplicate_or c k g w o want s p r).candidate
duplicate_or-IsSoundCandidate c k g w o want s p (some x) d e = absurd (ground arith)
duplicate_or-IsSoundCandidate c k g w o want s p none d e =
    admit-IsSoundCandidate c k g w o want s (sequence_within_reorder_window k.sequence_number p) d e

join_pending-IsSoundCandidate :
    (c : Codec) (k : Packet) (g w o : ℕ) (want : Bool) (s : Stream)
    → IsSoundCandidate (join_pending c k g w o want s).candidate
unfolding join_pending
join_pending-IsSoundCandidate c k g w o want s = duplicate_or-IsSoundCandidate c k g w o want s _ _

process_ready-IsSoundCandidate :
    (c : Codec) (again : Stream → Stream) (k : Packet) (g w o : ℕ) (want : Bool) (s : Stream)
    → IsSoundCandidate (process_ready c again k g w o want s).candidate
unfolding process_ready finish_at_timestamp_transition
process_ready-IsSoundCandidate c again k g w o want s d e =
    let r = finish_at_timestamp_transition c k.sequence_number w o want s in
    elim (Bool-cases (other_pending k.timestamp s.pending)) [
      | inr n ↦ join_pending-IsSoundCandidate c k g w o want s d (ground arith)
      | inl y ↦ elim (Option-cases r.candidate) [
        | inl n ↦ join_pending-IsSoundCandidate c k g w o want r.stream d (ground arith)
        | inr (x, q) ↦
            transition_of-IsSoundCandidate c k.sequence_number w o want s s.pending d (ground arith)
      ]
    ]

process_draining-IsSoundCandidate :
    (c : Codec) (again : Stream → Stream) (k : Packet) (g w o : ℕ) (want : Bool) (s : Stream)
    (r : Option Drain)
    → IsSoundCandidate (process_draining c again k g w o want s r).candidate
process_draining-IsSoundCandidate c again k g w o want s none d e =
    process_ready-IsSoundCandidate c again k g w o want s d e
process_draining-IsSoundCandidate c again k g w o want s (some u) d e =
    let t = finish_drain_unit k.sequence_number false s in
    process_ready-IsSoundCandidate c again k g w o want t d (ground arith)

process_rejected-IsSoundCandidate :
    (c : Codec) (again : Stream → Stream) (k : Packet) (g w o : ℕ) (want : Bool) (r : Bool × Stream)
    → IsSoundCandidate (process_rejected c again k g w o want r).candidate
process_rejected-IsSoundCandidate c again k g w o want (true, s) = none-IsSoundCandidate
process_rejected-IsSoundCandidate c again k g w o want (false, s) =
    process_draining-IsSoundCandidate c again k g w o want s s.draining

-- The candidate that a packet yields, if any, is in Annex B form, at most 4 MiB long, and opens with a
-- sequence and a picture parameter set that together pass validH264Parameters; whatever the stream,
-- the packet and the depacketizer.
pub process-IsSoundCandidate :
    (c : Codec) (k : Packet) (g w o : ℕ) (want : Bool) (s : Stream) (data_ : Bytes)
    → (process c k g w o want s).candidate ≡ some data_
    → IsCandidate data_
unfolding process process_with
process-IsSoundCandidate c k g w o want s d e =
    let again = process_behind c k g w o in
    let r = reject_completed k (expire o s) in
    process_rejected-IsSoundCandidate c again k g w o want r d (ground arith)
