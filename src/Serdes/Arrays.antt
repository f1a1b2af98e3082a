-- ===== src/Serdes/Arrays.antt =====
-- The loops of `encode` over the vectors of a message: `for (auto const d : data) appendData(buf, d);`
-- and its like.
use rap_cpp.Base.{ℕ, List, [], ◌∷◌}
use rap_cpp.Configuration.{Cfg}
use rap_cpp.Serdes.Buffer.{Buffer, append_address, append_data}

module _ (cfg : Cfg) where
  unfoldable pub append_data_array : Buffer → List ℕ → Buffer
  append_data_array buf [] = buf
  append_data_array buf (d ∷ ds) = append_data_array (append_data cfg buf d) ds

  unfoldable pub append_address_array : Buffer → List ℕ → Buffer
  append_address_array buf [] = buf
  append_address_array buf (a ∷ addrs) = append_address_array (append_address cfg buf a) addrs

  unfoldable pub append_address_data_array : Buffer → List (ℕ × ℕ) → Buffer
  append_address_data_array buf [] = buf
  append_address_data_array buf ((a, d) ∷ ads) =
      append_address_data_array (append_data cfg (append_address cfg buf a) d) ads
