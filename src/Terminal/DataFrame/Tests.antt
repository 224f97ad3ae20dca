-- ===== src/Terminal/DataFrame/Tests.antt =====
-- A frame of terminal input (terminaldataframe.cpp).
use win_remote_control.Prelude.{ok, ℕ, ◌≡◌, refl, List, [], ◌∷◌, ◌++◌, arith}
use win_remote_control.Qt.Example.{sixteen, two_uuids}
use win_remote_control.Terminal.DataFrame.{TerminalDataFrame, decode, encode, input}
use win_remote_control.Terminal.DataFrame.RoundTrip.{IsEncodable, decode-encode_frame}

abbrev typed : TerminalDataFrame
typed = record { direction = input; request_id = "7"; sequence = 9; payload = 108 ∷ (115 ∷ []) }

abbrev typed_IsEncodable : IsEncodable two_uuids typed
typed_IsEncodable = record {
  identified = refl;
  canonical = refl;
  directed = refl;
  numbered = omega arith;
  in_range = omega arith;
  some_payload = omega arith;
  bounded = omega arith;
}

decode-encode_frame_example :
    (bytes : List ℕ) × (encode two_uuids typed ≡ ok bytes) × (decode two_uuids bytes ≡ ok typed)
decode-encode_frame_example = decode-encode_frame two_uuids typed typed_IsEncodable

abbrev typed_bytes : List ℕ
typed_bytes =
    0x57
    ∷ (0x52
        ∷ (0x44
            ∷ (0x54
                ∷ (1
                    ∷ (0
                        ∷ (1
                            ∷ (0
                                ∷ (sixteen 7
                                    ++ (9
                                        ∷ (0
                                            ∷ (0
                                                ∷ (0
                                                    ∷ (0
                                                        ∷ (0
                                                            ∷ (0
                                                            ∷ (0
                                                            ∷ (2
                                                            ∷ (0
                                                            ∷ (0
                                                            ∷ (0
                                                            ∷ (108 ∷ (115 ∷ []))))))))))))))))))))))

decode-typed_bytes : decode two_uuids typed_bytes ≡ ok typed
unfolding decode
decode-typed_bytes = refl
