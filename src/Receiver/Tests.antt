-- ===== src/Receiver/Tests.antt =====
-- internal/jetkvm/video_receiver.go: the theorems about captures at a concrete run.
use jetkvm_mcp.Base.{ℕ, true, some, List, [], ◌∷◌, ◌++◌}
use jetkvm_mcp.H264.Nal.{annex_b_start_code}
use jetkvm_mcp.H264.Sequence.{Packet}
use jetkvm_mcp.H264.AccessUnit.{Codec}
use jetkvm_mcp.Receiver.{Turn, captures, closes, ends, new_video_receiver, observes, turns}
use jetkvm_mcp.Receiver.Answers.{IsAccounted, turns-IsAccounted}

abbrev plain_codec : Codec
plain_codec = record {
  marshal = λ p. some p.payload;
  unmarshal = λ taken payload. some (annex_b_start_code ++ payload);
}

abbrev slice : ℕ → ℕ → Packet
slice timestamp sequence = record {
  version = 2;
  marker = true;
  sequence_number = sequence;
  timestamp = timestamp;
  payload = 101 ∷ 9 ∷ [];
  other = [];
}

-- Capture 1 ends before a picture comes, capture 2 is refused behind 1, and 3 waits until the end.
abbrev day : List Turn
day =
    captures 1
    ∷ captures 2
    ∷ observes (some (slice 1 10)) 100
    ∷ ends 1
    ∷ captures 3
    ∷ observes (some (slice 2 11)) 200
    ∷ closes
    ∷ []

turns-IsAccounted_example : IsAccounted 3 (turns plain_codec day new_video_receiver)
turns-IsAccounted_example = turns-IsAccounted plain_codec 3 day
