-- ===== src/Tests/Remote.antt =====
-- Calls of a client that reach the device over a connection.
use rap_cpp.Base.{ℕ, ◌≡◌, refl, false, true, List, [], ◌∷◌, arith}
use rap_cpp.Serdes.Tests.{sum_crc, sum_crc-IsCrc, serdes, serdes-IsSerdes}
use rap_cpp.Serdes.Bytes.{to_le}
use rap_cpp.Serdes.Command.Wire.{Sendable}
use rap_cpp.Messages.{write_seq, write_comp, read_comp}
use rap_cpp.ServerAdapter.{zeros}
use rap_cpp.RegisterTarget.Exchange.{check_ifs}
use rap_cpp.RegisterTarget.Methods.{
  client_write, client_read, client_read_modify_write, client_seq_write, client_seq_read,
  client_comp_write, client_comp_read,
}
use rap_cpp.Loop.{connection}
use rap_cpp.Loop.Exchange.{idle}
use rap_cpp.Loop.Methods.{
  remote, client_write-remote, client_read-remote, client_read_modify_write-remote,
}
use rap_cpp.Loop.Arrays.{client_seq_write-remote, client_seq_read-remote}
use rap_cpp.Loop.Compressed.{client_comp_write-client_comp_read}
use rap_cpp.Tests.Device.{throwing, all_features, all_features-IsUsable, device, device-IsTarget}

increments : check_ifs all_features 4 ≡ true
unfolding check_ifs
increments = refl

client_write-remote_example :
    client_write sum_crc all_features serdes
      (connection sum_crc all_features serdes device)
      throwing
      16
      5
      (idle 512 7 42)
    ≡ remote 512 7 (device.target_write 16 5 42)
client_write-remote_example =
    client_write-remote sum_crc all_features sum_crc-IsCrc all_features-IsUsable serdes
      serdes-IsSerdes device device-IsTarget 512 throwing 7 16 5 42 (omega arith) (omega arith)
      (omega arith)

client_read-remote_example :
    client_read sum_crc all_features serdes
      (connection sum_crc all_features serdes device)
      throwing
      16
      (idle 512 7 42)
    ≡ remote 512 7 (device.target_read 16 42)
client_read-remote_example =
    client_read-remote sum_crc all_features sum_crc-IsCrc all_features-IsUsable serdes
      serdes-IsSerdes device device-IsTarget 512 throwing 7 16 42 (omega arith) (omega arith)

client_read_modify_write-remote_example :
    client_read_modify_write sum_crc all_features serdes
      (connection sum_crc all_features serdes device)
      throwing
      16
      5
      1
      (idle 512 7 42)
    ≡ remote 512 7 (device.target_read_modify_write 16 5 1 42)
client_read_modify_write-remote_example =
    client_read_modify_write-remote sum_crc all_features sum_crc-IsCrc all_features-IsUsable serdes
      serdes-IsSerdes device device-IsTarget 512 throwing 7 16 5 1 42 refl (omega arith)
      (omega arith) (omega arith) (omega arith)

abbrev words : List ℕ
words = 1 ∷ 2 ∷ []

words-Sendable : Sendable all_features serdes (
    write_seq (record {
      transaction_id = 7;
      posted = false;
      start_addr = 16;
      increment = 4;
      values = words;
    }))
unfolding to_le rap_cpp.Serdes.ArrayFields.array_le
words-Sendable = (omega arith, omega arith)

pairs-Sendable :
    Sendable all_features serdes (
      write_comp
        (record { transaction_id = 7; posted = false; addr_data = (16, 1) ∷ (32, 2) ∷ [] }))
unfolding to_le rap_cpp.Serdes.ArrayFields.pairs_le
pairs-Sendable = (omega arith, omega arith)

addresses-Sendable :
    Sendable all_features serdes
      (read_comp (record { transaction_id = 7; addresses = 16 ∷ 32 ∷ [] }))
unfolding to_le rap_cpp.Serdes.ArrayFields.array_le
addresses-Sendable = (omega arith, omega arith, omega arith)

client_seq_write-remote_example :
    client_seq_write sum_crc all_features serdes
      (connection sum_crc all_features serdes device)
      throwing
      16
      words
      4
      (idle 512 7 42)
    ≡ remote 512 7 (device.target_seq_write 16 words 4 42)
client_seq_write-remote_example =
    client_seq_write-remote sum_crc all_features sum_crc-IsCrc all_features-IsUsable serdes
      serdes-IsSerdes device device-IsTarget 512 throwing 7 16 words 4 42 increments (ground arith)
      words-Sendable

client_seq_read-remote_example :
    client_seq_read sum_crc all_features serdes
      (connection sum_crc all_features serdes device)
      throwing
      16
      words
      4
      (idle 512 7 42)
    ≡ remote 512 7 (device.target_seq_read 16 (zeros 2) 4 42)
client_seq_read-remote_example =
    client_seq_read-remote sum_crc all_features sum_crc-IsCrc all_features-IsUsable serdes
      serdes-IsSerdes device device-IsTarget 512 throwing 7 16 words 4 42 increments (ground arith)
      (omega arith, omega arith)

abbrev pairs : List (ℕ × ℕ)
pairs = (16, 1) ∷ (32, 2) ∷ []

abbrev addresses : List ℕ
addresses = 16 ∷ 32 ∷ []

client_comp_write-client_comp_read_example :
    let link = connection sum_crc all_features serdes device in
    (client_comp_write sum_crc all_features serdes link throwing pairs (idle 512 7 42)
      ≡ remote 512 7 (device.target_comp_write pairs 42))
    × (client_comp_read sum_crc all_features serdes link throwing addresses words (idle 512 7 42)
        ≡ remote 512 7 (device.target_comp_read addresses (zeros 2) 42))
client_comp_write-client_comp_read_example =
    client_comp_write-client_comp_read sum_crc all_features sum_crc-IsCrc all_features-IsUsable
      serdes serdes-IsSerdes device device-IsTarget 512 throwing 7 pairs addresses words 42 refl
      refl (ground arith) pairs-Sendable (ground arith) addresses-Sendable
