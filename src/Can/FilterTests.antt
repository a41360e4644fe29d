-- ===== src/Can/FilterTests.antt =====
-- Runs of drivers/can/can_hpmicro.c on the simulated board, and the instances of its theorems.
use hpm_support.Prelude.{
  zero, suc, ◌≡◌, refl, true, false, none, some, [], ◌∷◌, arith, get_or, word_or, word_not, ◌↔◌,
}
use hpm_support.Errno.{ok}
use hpm_support.Can.Types.{RxBuf, CanFilter, Dev}
use hpm_support.Can.Filter.{
  accepts, entry, get_first_filter_index, add_rx_filter, remove_rx_filter, no_filter,
}
use hpm_support.Can.Filter.Match.{Passes, accepts-Passes}
use hpm_support.Can.Filter.Lookup.{IsFirst, get_first_filter_index-IsFirst}
use hpm_support.Can.Filter.Table.{IsTable, Added, add_rx_filter-Added}
use hpm_support.Can.Filter.Remove.{IsPlaced, Removed, remove_rx_filter-Removed}
use hpm_support.Can.Board.{Board, hal, os, os-laws, fresh, fresh_data, empty_buf}

abbrev low_filter : CanFilter
low_filter = record { id = 5; mask = 7; ide = false; rtr = false; others = false }

abbrev high_filter : CanFilter
high_filter = record { id = 32; mask = 0x7f0; ide = false; rtr = false; others = false }

fresh-IsTable : IsTable fresh_data
fresh-IsTable = record {
  count_le = omega arith;
  filters = refl;
  callbacks = refl;
  arguments = refl;
  counted = refl;
}

add_rx_filter-Added_example :
    let (r, d) = add_rx_filter hal os (some 100) none low_filter fresh in
    (r ≡ ok 0)
    × Added 0 100 none low_filter fresh_data d.drv
    × (d.hw ≡ (hal.init d.drv.config d.drv.filter_list (hal.clock_freq fresh.hw) fresh.hw).1)
add_rx_filter-Added_example =
    add_rx_filter-Added hal os os-laws fresh 100 none low_filter fresh-IsTable (omega arith) refl

-- Two filters, for the identifiers that end in 5 and for 0x20 to 0x2f.
abbrev two_filters : Dev Board
two_filters =
    (add_rx_filter hal os (some 200) none high_filter
      (add_rx_filter hal os (some 100) none low_filter fresh).1).1

abbrev full : Dev Board
full = record fresh { drv = record fresh_data { can_filter_count = 16 } }

two_filters-IsTable : IsTable two_filters.drv
unfolding add_rx_filter
two_filters-IsTable = record {
  count_le = omega arith;
  filters = refl;
  callbacks = refl;
  arguments = refl;
  counted = refl;
}

two_filters-IsPlaced : IsPlaced two_filters.drv
unfolding add_rx_filter
two_filters-IsPlaced zero h = refl
two_filters-IsPlaced (suc zero) h = refl
two_filters-IsPlaced (suc (suc k)) h = absurd (omega arith)

remove_rx_filter-Removed_example :
    Removed 0 two_filters.drv (remove_rx_filter hal os 0 two_filters).drv
unfolding add_rx_filter
remove_rx_filter-Removed_example =
    remove_rx_filter-Removed hal os os-laws two_filters 0 two_filters-IsTable two_filters-IsPlaced
      (omega arith) refl

-- A frame for the second filter only.
abbrev high_frame : RxBuf
high_frame = record empty_buf { id = 0x21; dlc = 2; payload = 7 ∷ 9 ∷ [] }

high_frame_found : get_first_filter_index high_frame two_filters.drv ≡ some 1
unfolding get_first_filter_index add_rx_filter accepts word_or word_not
high_frame_found = refl

low_rejects : accepts (entry 0 low_filter) high_frame ≡ false
unfolding accepts word_or word_not
low_rejects = refl

accepts-Passes_example :
    (accepts (entry 1 high_filter) high_frame ≡ true) ↔ Passes high_filter high_frame
accepts-Passes_example = accepts-Passes 1 high_filter high_frame

get_first_filter_index-IsFirst_example :
    (get_first_filter_index high_frame two_filters.drv ≡ some 1)
    ↔ IsFirst two_filters.drv.filter_list high_frame 0 two_filters.drv.can_filter_count 1
get_first_filter_index-IsFirst_example = get_first_filter_index-IsFirst high_frame two_filters.drv 1

high_accepts : accepts (get_or two_filters.drv.filter_list 1 no_filter) high_frame ≡ true
unfolding accepts add_rx_filter word_or word_not
high_accepts = refl
