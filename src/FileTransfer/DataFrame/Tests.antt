-- ===== src/FileTransfer/DataFrame/Tests.antt =====
-- A piece of a file (filetransferdataframe.cpp).
use win_remote_control.Prelude.{ok, ℕ, ◌≡◌, refl, List, [], ◌∷◌, ◌++◌, arith}
use win_remote_control.Qt.Example.{sixteen, two_uuids}
use win_remote_control.FileTransfer.DataFrame.{FileTransferDataFrame, decode, encode}
use win_remote_control.FileTransfer.DataFrame.RoundTrip.{IsEncodable, decode-encode_piece}
use win_remote_control.FileTransfer.DataFrame.Soundness.{IsPiece, decode-IsPiece}

abbrev piece : FileTransferDataFrame
piece = record { flags = 1; task_id = "7"; file_id = "7"; offset = 300; payload = 5 ∷ (6 ∷ []) }

abbrev piece_IsEncodable : IsEncodable two_uuids piece
piece_IsEncodable = record {
  task = refl;
  file = refl;
  canonical_task = refl;
  canonical_file = refl;
  flagged = omega arith;
  in_range = omega arith;
  some_payload = omega arith;
  bounded = omega arith;
}

decode-encode_piece_example :
    (bytes : List ℕ) × (encode two_uuids piece ≡ ok bytes) × (decode two_uuids bytes ≡ ok piece)
decode-encode_piece_example = decode-encode_piece two_uuids piece piece_IsEncodable

abbrev piece_bytes : List ℕ
piece_bytes =
    0x57
    ∷ (0x52
        ∷ (0x46
            ∷ (0x44
                ∷ (0
                    ∷ (1
                        ∷ (0
                            ∷ (1
                                ∷ (sixteen 7
                                    ++ (sixteen 7
                                        ++ (0
                                            ∷ (0
                                                ∷ (0
                                                    ∷ (0
                                                        ∷ (0
                                                            ∷ (0
                                                            ∷ (1
                                                            ∷ (44
                                                            ∷ (0
                                                            ∷ (0
                                                            ∷ (0
                                                            ∷ (2
                                                            ∷ (5 ∷ (6 ∷ [])))))))))))))))))))))))

decode-piece_bytes : decode two_uuids piece_bytes ≡ ok piece
unfolding decode
decode-piece_bytes = refl

decode-IsPiece_example : IsPiece two_uuids piece_bytes piece
decode-IsPiece_example = decode-IsPiece two_uuids piece_bytes piece decode-piece_bytes
