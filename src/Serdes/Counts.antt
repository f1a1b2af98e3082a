-- ===== src/Serdes/Counts.antt =====
-- The four `getMax...Count` functions of Serdes.h together.
use rap_cpp.Base.{◌≤◌}
use rap_cpp.Configuration.{Cfg, Widths}
use rap_cpp.Serdes.Size.{
  Serdes, numeric_max, get_max_seq_read_count, get_max_seq_write_count, get_max_comp_read_count,
  get_max_comp_write_count,
}
use rap_cpp.Serdes.Limits.{
  IsSerdes, IsLimit, size_of, get_max_seq_read_count_exact, get_max_seq_write_count_exact,
  get_max_comp_read_count_exact, get_max_comp_write_count_exact,
}

-- Each of the four functions returns the largest count with which the packets fit the maximum and
-- that a `LengthType` can hold: `getMaxSeqReadCount()` for the acknowledgement of a read,
-- `getMaxSeqWriteCount()` for a write command, `getMaxCompReadCount()` for a compressed read and its
-- acknowledgement, `getMaxCompWriteCount()` for a compressed write.
pub max_counts_exact :
    (cfg : Cfg) (s : Serdes)
    → Widths cfg
    → IsSerdes s
    → IsLimit
        (get_max_seq_read_count cfg s)
        (λ n. (size_of cfg 0 n 1 ≤ s.max_message_size) × (n ≤ numeric_max cfg.length_size))
      × IsLimit
          (get_max_seq_write_count cfg s)
          (λ n. (size_of cfg 1 n 2 ≤ s.max_message_size) × (n ≤ numeric_max cfg.length_size))
      × IsLimit (get_max_comp_read_count cfg s) (λ n.
        (size_of cfg n 0 1 ≤ s.max_message_size)
        × (size_of cfg 0 n 1 ≤ s.max_message_size)
        × (n ≤ numeric_max cfg.length_size))
      × IsLimit
          (get_max_comp_write_count cfg s)
          (λ n. (size_of cfg n n 1 ≤ s.max_message_size) × (n ≤ numeric_max cfg.length_size))
max_counts_exact cfg s w v = (
  get_max_seq_read_count_exact cfg s w v,
  get_max_seq_write_count_exact cfg s w v,
  get_max_comp_read_count_exact cfg s w v,
  get_max_comp_write_count_exact cfg s w v,
)
