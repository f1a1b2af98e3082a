-- ===== src/Serdes/Command/Accepted.antt =====
-- `decode` of each command on any payload at all.
use rap_cpp.Base.{
  ℕ, ◌+◌, ◌*◌, ◌<◌, ◌≡◌, refl, ap, ◌∙◌, Option, some, List, append-nil, length, not, ◌==◌,
  if◌then◌else◌,
}
use rap_cpp.Configuration.{Cfg, Widths}
use rap_cpp.Result.{Ensures, Ensures-throw_if, base_exception}
use rap_cpp.Messages.{
  Command, ReadSingleCommand, WriteSingleCommand, ReadSeqCommand, WriteSeqCommand, ReadCompCommand,
  WriteCompCommand, ReadModifyWriteCommand, read_single, write_single, read_seq, write_seq,
  read_comp, write_comp, read_modify_write,
}
use rap_cpp.Messages.MessageType.{
  MessageType, same_type, cmd_single_read, cmd_single_write, cmd_single_write_posted, cmd_seq_read,
  cmd_seq_write, cmd_seq_write_posted, cmd_comp_read, cmd_comp_write, cmd_comp_write_posted,
  cmd_single_rmw, cmd_single_rmw_posted,
}
use rap_cpp.Serdes.Bytes.{IsBytes}
use rap_cpp.Serdes.Readers.{
  extract_address_then, extract_data_then, extract_length_then, extract_address_array_then,
  extract_data_array_then, extract_address_data_array_then, end_of_packet_then,
}
use rap_cpp.Serdes.Command.Decode.{
  decode_read_single, decode_write_single, decode_read_seq, decode_write_seq, decode_read_comp,
  decode_write_comp, decode_read_modify_write,
}
use rap_cpp.Serdes.Command.Wire.{payload, IsWire, id_of, type_of}

-- `cmd` is the command of type `t` with the id `txn_id` whose payload is `buf`.
pub record IsDecoded (cfg : Cfg) (t : Option MessageType) (txn_id : ℕ) (buf : List ℕ)
    (cmd : Command) : Type 0 where
  pub is_type : some (type_of cmd) ≡ t
  pub is_id : id_of cmd ≡ txn_id
  pub whole : buf ≡ payload cfg cmd
  pub fits : IsWire cfg cmd

module _ (cfg : Cfg) (w : Widths cfg) (txn_id : ℕ) (byte : txn_id < 256) where
  pub decode_read_single-Ensures :
      (buf : List ℕ)
      → IsBytes buf
      → Ensures
          (λ c. IsDecoded cfg (some cmd_single_read) txn_id buf (read_single c))
          (decode_read_single cfg buf txn_id)
  unfolding decode_read_single
  decode_read_single-Ensures buf bytes =
      let Q = λ (c : ReadSingleCommand).
        IsDecoded cfg (some cmd_single_read) txn_id buf (read_single c) in
      extract_address_then cfg w Q buf bytes _ λ a addr. end_of_packet_then Q a.1 _ λ over. record {
        is_type = refl;
        is_id = refl;
        whole = addr.whole ∙ rw (over, append-nil);
        fits = (byte, addr.fits);
      }

  pub decode_write_single-Ensures :
      (m : MessageType) (buf : List ℕ)
      → (if same_type m cmd_single_write_posted then cmd_single_write_posted else cmd_single_write)
        ≡ m
      → IsBytes buf
      → Ensures
          (λ c. IsDecoded cfg (some m) txn_id buf (write_single c))
          (decode_write_single cfg buf txn_id m)
  unfolding decode_write_single
  decode_write_single-Ensures m buf same bytes =
      let Q = λ (c : WriteSingleCommand). IsDecoded cfg (some m) txn_id buf (write_single c) in
      extract_address_then cfg w Q buf bytes _ λ a addr.
        extract_data_then cfg w Q a.1 addr.rest_bytes _ λ d word. end_of_packet_then Q d.1 _ λ over.
          record {
            is_type = ap some same;
            is_id = refl;
            whole = addr.whole ∙ rw (word.whole, over, append-nil);
            fits = (byte, addr.fits, word.fits);
          }

  pub decode_read_seq-Ensures :
      (buf : List ℕ)
      → IsBytes buf
      → Ensures
          (λ c. IsDecoded cfg (some cmd_seq_read) txn_id buf (read_seq c))
          (decode_read_seq cfg buf txn_id)
  unfolding decode_read_seq
  decode_read_seq-Ensures buf bytes =
      let Q = λ (c : ReadSeqCommand). IsDecoded cfg (some cmd_seq_read) txn_id buf (read_seq c) in
      extract_address_then cfg w Q buf bytes _ λ a addr.
        extract_length_then cfg w Q a.1 addr.rest_bytes _ λ i incr.
          extract_length_then cfg w Q i.1 incr.rest_bytes _ λ n count.
            end_of_packet_then Q n.1 _ λ over. record {
              is_type = refl;
              is_id = refl;
              whole = addr.whole ∙ rw (incr.whole, count.whole, over, append-nil);
              fits = (byte, addr.fits, incr.fits, count.fits);
            }

  pub decode_write_seq-Ensures :
      (m : MessageType) (buf : List ℕ)
      → (if same_type m cmd_seq_write_posted then cmd_seq_write_posted else cmd_seq_write) ≡ m
      → IsBytes buf
      → Ensures
          (λ c. IsDecoded cfg (some m) txn_id buf (write_seq c))
          (decode_write_seq cfg buf txn_id m)
  unfolding decode_write_seq
  decode_write_seq-Ensures m buf same bytes =
      let Q = λ (c : WriteSeqCommand). IsDecoded cfg (some m) txn_id buf (write_seq c) in
      extract_address_then cfg w Q buf bytes _ λ a addr.
        extract_length_then cfg w Q a.1 addr.rest_bytes _ λ i incr.
          extract_length_then cfg w Q i.1 incr.rest_bytes _ λ n count.
            Ensures-throw_if Q (not (length n.1 == n.0 * cfg.data_bytes)) base_exception _ λ _.
              extract_data_array_then cfg w Q n.1 count.rest_bytes n.0 _ λ ds words.
                end_of_packet_then Q ds.1 _ λ over. record {
                  is_type = ap some same;
                  is_id = refl;
                  whole =
                      addr.whole
                      ∙ rw (incr.whole, count.whole, words.whole, over, append-nil, words.fits.0);
                  fits = (byte, addr.fits, incr.fits, rw words.fits.0 count.fits, words.fits.1);
                }

  pub decode_read_comp-Ensures :
      (buf : List ℕ)
      → IsBytes buf
      → Ensures
          (λ c. IsDecoded cfg (some cmd_comp_read) txn_id buf (read_comp c))
          (decode_read_comp cfg buf txn_id)
  unfolding decode_read_comp
  decode_read_comp-Ensures buf bytes =
      let Q =
        λ (c : ReadCompCommand). IsDecoded cfg (some cmd_comp_read) txn_id buf (read_comp c) in
      extract_length_then cfg w Q buf bytes _ λ n count.
        Ensures-throw_if Q (not (length n.1 == n.0 * cfg.address_bytes)) base_exception _ λ _.
          extract_address_array_then cfg w Q n.1 count.rest_bytes n.0 _ λ ds addrs.
            end_of_packet_then Q ds.1 _ λ over. record {
              is_type = refl;
              is_id = refl;
              whole = count.whole ∙ rw (addrs.whole, over, append-nil, addrs.fits.0);
              fits = (byte, rw addrs.fits.0 count.fits, addrs.fits.1);
            }

  pub decode_write_comp-Ensures :
      (m : MessageType) (buf : List ℕ)
      → (if same_type m cmd_comp_write_posted then cmd_comp_write_posted else cmd_comp_write) ≡ m
      → IsBytes buf
      → Ensures
          (λ c. IsDecoded cfg (some m) txn_id buf (write_comp c))
          (decode_write_comp cfg buf txn_id m)
  unfolding decode_write_comp
  decode_write_comp-Ensures m buf same bytes =
      let Q = λ (c : WriteCompCommand). IsDecoded cfg (some m) txn_id buf (write_comp c) in
      extract_length_then cfg w Q buf bytes _ λ n count.
        Ensures-throw_if Q (not (length n.1 == n.0 * (cfg.address_bytes + cfg.data_bytes)))
          base_exception _
          λ _. extract_address_data_array_then cfg w Q n.1 count.rest_bytes n.0 _ λ ds pairs.
            end_of_packet_then Q ds.1 _ λ over. record {
              is_type = ap some same;
              is_id = refl;
              whole = count.whole ∙ rw (pairs.whole, over, append-nil, pairs.fits.0);
              fits = (byte, rw pairs.fits.0 count.fits, pairs.fits.1);
            }

  pub decode_read_modify_write-Ensures :
      (m : MessageType) (buf : List ℕ)
      → (if same_type m cmd_single_rmw_posted then cmd_single_rmw_posted else cmd_single_rmw) ≡ m
      → IsBytes buf
      → Ensures
          (λ c. IsDecoded cfg (some m) txn_id buf (read_modify_write c))
          (decode_read_modify_write cfg buf txn_id m)
  unfolding decode_read_modify_write
  decode_read_modify_write-Ensures m buf same bytes =
      let Q =
        λ (c : ReadModifyWriteCommand). IsDecoded cfg (some m) txn_id buf (read_modify_write c) in
      extract_address_then cfg w Q buf bytes _ λ a addr.
        extract_data_then cfg w Q a.1 addr.rest_bytes _ λ d word.
          extract_data_then cfg w Q d.1 word.rest_bytes _ λ k mask.
            end_of_packet_then Q k.1 _ λ over. record {
              is_type = ap some same;
              is_id = refl;
              whole = addr.whole ∙ rw (word.whole, mask.whole, over, append-nil);
              fits = (byte, addr.fits, word.fits, mask.fits);
            }
