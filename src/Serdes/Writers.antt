-- ===== src/Serdes/Writers.antt =====
-- The `append…` functions against the bytes of each field, and the way every `encode` ends.
use rap_cpp.Base.{
  ℕ, ◌+◌, ◌*◌, ◌≤◌, ◌≡◌, refl, ◌∙◌, List, [], ◌∷◌, ◌++◌, append_assoc, length, length-append, arith,
}
use rap_cpp.Configuration.{Cfg, Widths}
use rap_cpp.Result.{ok, ◌>>=◌}
use rap_cpp.Messages.MessageType.{MessageType, to_byte}
use rap_cpp.Serdes.Size.{Serdes, calc_size}
use rap_cpp.Serdes.Buffer.{
  Calculate, IsCrc, mk_buffer, append_address, append_data, append_length, finish,
}
use rap_cpp.Serdes.Bytes.{to_le, length-to_le, append_low_bytes_lem, to_le-to_unsigned}
use rap_cpp.Serdes.ArrayFields.{
  length-array_le, length-pairs_le, append_data_array_lem, append_address_array_lem,
  append_address_data_array_lem,
}
use rap_cpp.Serdes.Limits.{IsSerdes, calc_size_lem}
use rap_cpp.Serdes.Frame.{frame, finish_lem}

pub mk_buffer_lem : (txn_id : ℕ) (m : MessageType) → mk_buffer txn_id m ≡ txn_id ∷ to_byte m ∷ []
unfolding mk_buffer
mk_buffer_lem txn_id m = refl

module _ (cfg : Cfg) where
  pub append_address_lem :
      (buf : List ℕ) (v : ℕ) → append_address cfg buf v ≡ buf ++ to_le cfg.address_bytes v
  unfolding append_address
  append_address_lem buf v = append_low_bytes_lem cfg.address_bytes buf v

  pub append_data_lem :
      (buf : List ℕ) (v : ℕ) → append_data cfg buf v ≡ buf ++ to_le cfg.data_bytes v
  unfolding append_data
  append_data_lem buf v = append_low_bytes_lem cfg.data_bytes buf v

  pub append_length_lem :
      cfg.length_bytes ≤ cfg.length_size
      → (buf : List ℕ) (v : ℕ) → append_length cfg buf v ≡ buf ++ to_le cfg.length_bytes v
  unfolding append_length
  append_length_lem h buf v =
      rw (append_low_bytes_lem, to_le-to_unsigned cfg.length_bytes cfg.length_size v h)

pub ruleset writers = (
  mk_buffer_lem, append_address_lem, append_data_lem, append_data_array_lem,
  append_address_array_lem, append_address_data_array_lem, append_assoc,
)

pub ruleset lengths = (length-append, length-to_le, length-array_le, length-pairs_le)

module _ (calculate : Calculate) (cfg : Cfg) (lawful : IsCrc calculate) (w : Widths cfg)
    (s : Serdes) (v : IsSerdes s) where
  -- Where the size counts the fields that were written, the assertion holds and the packet is framed.
  pub seal :
      (a d l : ℕ) (body payload : List ℕ) (txn_id : ℕ) (m : MessageType)
      → body ≡ txn_id ∷ to_byte m ∷ payload
      → length payload ≡ a * cfg.address_bytes + d * cfg.data_bytes + l * cfg.length_bytes
      → 2 + length payload + cfg.crc_bytes ≤ s.max_message_size
      → (calc_size cfg s a d l >>= λ sz. finish calculate cfg sz body)
        ≡ ok (frame calculate cfg (txn_id ∷ to_byte m ∷ payload))
  seal a d l body payload txn_id m e len fits =
      rw (calc_size_lem cfg s w v a d l (omega arith), e)
        (finish_lem calculate cfg lawful w _ _ (omega arith))
