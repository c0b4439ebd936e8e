-- ===== src/H264/State.antt =====
-- internal/jetkvm/video.go: the state of a stream, and the units and the anchor it remembers
-- (rememberCompleted, setSequenceAnchor, clearSequenceAnchor, rejectCompleted, discardPending).
use jetkvm_mcp.Base.{
  ℕ, Bool, true, false, not, ◌&&◌, ◌||◌, Option, none, some, List, [], ◌∷◌, ◌++◌, ◌==◌, ltb, leb,
  length, is_some, if◌then◌else◌,
}
use jetkvm_mcp.Base.Assoc.{assign, delete, lookup}
use jetkvm_mcp.H264.Nal.{Bytes, Fu}
use jetkvm_mcp.H264.Parameters.{Parameters}
use jetkvm_mcp.H264.Sequence.{Packet, Pending, add16, half, max_h264_reorder_window, sub16}

pub record Drain : Type 0 where
  pub timestamp : ℕ
  pub anchored : Bool
  pub last_sequence : ℕ
  pub have_sequence : Bool
  pub last_observed : ℕ
  pub invalid : Bool
  pub sequence_gap : Bool
  pub packet_count : ℕ
  pub payload_bytes : ℕ
  pub projected_bytes : ℕ
  pub fu : Fu
  pub fu_zero_run : ℕ
  pub fu_parameter : Bytes
  pub latest_sps : Option Bytes
  pub latest_pps : Option Bytes

pub record CompletedUnit : Type 0 where
  pub frontier : ℕ
  pub has_frontier : Bool

-- The units that are done, by timestamp, and their order, oldest first.
pub record History : Type 0 where
  pub completed : List (ℕ × CompletedUnit)
  pub completed_order : List ℕ

pub record Anchor : Type 0 where
  pub next_sequence : ℕ
  pub have_next : Bool
  pub anchor_timestamp : ℕ
  pub anchor_set : Bool

pub record Stream : Type 0 where
  pub pending : Option Pending
  pub draining : Option Drain
  pub parameters : Parameters
  pub anchor : Anchor
  pub history : History
  pub candidate_at : ℕ
  pub candidate_generation : ℕ

abbrev pub new_h264_stream : Stream
new_h264_stream = record {
  pending = none;
  draining = none;
  parameters = record { sps = none; pps = none };
  anchor = record {
    next_sequence = 0;
    have_next = false;
    anchor_timestamp = 0;
    anchor_set = false;
  };
  history = record { completed = []; completed_order = [] };
  candidate_at = 0;
  candidate_generation = 0;
}

abbrev pub put_pending : Option Pending → Stream → Stream
put_pending p s = record s { pending = p }

abbrev pub put_draining : Option Drain → Stream → Stream
put_draining d s = record s { draining = d }

-- Past the window, the oldest unit is forgotten.
abbrev pub trimmed_of : History → List ℕ → History
trimmed_of h [] = h
trimmed_of h (oldest ∷ order) =
    if ltb max_h264_reorder_window (length (oldest ∷ order))
    then (record { completed = delete oldest h.completed; completed_order = order })
    else h

unfoldable pub remember : ℕ → ℕ → Bool → History → History
remember timestamp frontier has_frontier h =
    let unit : CompletedUnit = record { frontier = frontier; has_frontier = has_frontier } in
    let added : History = record {
      completed = assign timestamp unit h.completed;
      completed_order = h.completed_order ++ timestamp ∷ [];
    } in
    if is_some (lookup timestamp h.completed) then h else trimmed_of added added.completed_order

unfoldable pub remember_completed : ℕ → ℕ → Bool → Stream → Stream
remember_completed timestamp frontier has_frontier s = record s {
  history = remember timestamp frontier has_frontier s.history;
}

unfoldable pub set_sequence_anchor : ℕ → ℕ → Stream → Stream
set_sequence_anchor timestamp next_sequence s = record s {
  anchor = record {
    next_sequence = next_sequence;
    have_next = true;
    anchor_timestamp = timestamp;
    anchor_set = true;
  };
}

unfoldable pub clear_sequence_anchor : Stream → Stream
clear_sequence_anchor s = record s {
  anchor = record s.anchor { have_next = false; anchor_set = false };
}

abbrev unexpected : Option Pending → Option Pending
unexpected none = none
unexpected (some p) = some (record p { expected_set = false })

abbrev unanchored : Option Drain → Option Drain
unanchored none = none
unanchored (some d) = some (record d { anchored = false })

-- A later packet of the unit that set the anchor takes the anchor away.
abbrev lose_anchor : ℕ → Stream → Stream
lose_anchor timestamp s =
    let c = clear_sequence_anchor s in
    if s.anchor.anchor_set && s.anchor.anchor_timestamp == timestamp
    then put_draining (unanchored c.draining) (put_pending (unexpected c.pending) c)
    else s

abbrev put_frontier : Packet → Stream → Stream
put_frontier packet s = record s {
  history = record s.history {
    completed =
        assign packet.timestamp (record { frontier = packet.sequence_number; has_frontier = true })
          s.history.completed;
  };
}

abbrev note_late : Packet → CompletedUnit → Stream → Stream
note_late packet unit s =
    let distance = sub16 packet.sequence_number unit.frontier in
    if not (packet.version == 2)
    then s
    else if not unit.has_frontier
    then put_frontier packet s
    else if distance == 0 || leb half distance
    then s
    else lose_anchor packet.timestamp (put_frontier packet s)

abbrev rejected : Packet → Stream → Option CompletedUnit → Bool × Stream
rejected packet s none = (false, s)
rejected packet s (some unit) = (true, note_late packet unit s)

-- Whether the packet belongs to a unit that is done, and the stream afterwards.
unfoldable pub reject_completed : Packet → Stream → Bool × Stream
reject_completed packet s = rejected packet s (lookup packet.timestamp s.history.completed)

abbrev anchor_discarded : Pending → Stream → Stream
anchor_discarded p s =
    if p.marker_explicit && p.marker_set && p.frontier_set && p.marker == p.frontier
    then set_sequence_anchor p.timestamp (add16 p.marker 1) s
    else clear_sequence_anchor s

abbrev discard_pending_of : Stream → Option Pending → Stream
discard_pending_of s none = s
discard_pending_of s (some p) =
    put_pending none
      (anchor_discarded p (remember_completed p.timestamp p.frontier p.frontier_set s))

unfoldable pub discard_pending : Stream → Stream
discard_pending s = discard_pending_of s s.pending
