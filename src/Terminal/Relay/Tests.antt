-- ===== src/Terminal/Relay/Tests.antt =====
-- Two relay frames (terminalrelayframecodec.cpp) that arrive in pieces cut across their borders.
use win_remote_control.Prelude.{ℕ, ◌+◌, ◌<◌, ◌≡◌, refl, ◌≢◌, List, [], ◌∷◌, arith, length}
use win_remote_control.Terminal.Relay.{
  TerminalRelayFrame, accepted, append, drain_all, encode, encode_frame_header, frame_header_bytes,
  maximum_payload_bytes, out_of_fuel, round,
}
use win_remote_control.Terminal.Relay.Stream.{append_buffer, concat, feed, feed-drain_all}
use win_remote_control.Terminal.Relay.RoundTrip.{IsSendable, feed-encode, stream_of}

abbrev first : TerminalRelayFrame
first = record { type = 2; payload = 104 ∷ (105 ∷ []) }

abbrev second : TerminalRelayFrame
second = record { type = 5; payload = [] }

abbrev first_piece : List ℕ
first_piece = 0x57 ∷ (0x52 ∷ (0x43 ∷ (0x54 ∷ (1 ∷ (0 ∷ (2 ∷ []))))))

abbrev second_piece : List ℕ
second_piece =
    0
    ∷ (2
        ∷ (0
            ∷ (0
                ∷ (0
                    ∷ (104
                        ∷ (105
                            ∷ (0x57
                                ∷ (0x52
                                    ∷ (0x43
                                        ∷ (0x54
                                            ∷ (1
                                                ∷ (0
                                                    ∷ (5
                                                        ∷ (0
                                                            ∷ (0
                                                            ∷ (0 ∷ (0 ∷ (0 ∷ []))))))))))))))))))

abbrev pieces : List (List ℕ)
pieces = first_piece ∷ (second_piece ∷ [])

abbrev first_IsSendable : IsSendable first
first_IsSendable = record { known = refl; small = omega arith }

abbrev second_IsSendable : IsSendable second
second_IsSendable = record { known = refl; small = omega arith }

pieces_join : concat pieces ≡ stream_of (first ∷ (second ∷ []))
unfolding encode encode_frame_header
pieces_join = refl

feed-encode_example :
    feed [] pieces [] ≡ record { buffer = []; frames = first ∷ (second ∷ []); status = accepted }
feed-encode_example =
    feed-encode (first ∷ (second ∷ [])) pieces (first_IsSendable, (second_IsSendable, tt))
      pieces_join (omega arith, (omega arith, tt))

feed-drain_all_example : feed [] pieces [] ≡ drain_all (concat pieces) []
unfolding round
feed-drain_all_example = feed-drain_all [] pieces [] refl (omega arith, (omega arith, tt))

append_buffer_example :
    ((append [] first_piece []).status ≡ accepted
      → length (append [] first_piece []).buffer < frame_header_bytes + maximum_payload_bytes)
    × ((append [] first_piece []).status ≢ accepted → (append [] first_piece []).buffer ≡ [])
    × ((append [] first_piece []).status ≢ out_of_fuel)
append_buffer_example = append_buffer [] first_piece []
