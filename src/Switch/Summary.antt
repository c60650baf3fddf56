-- ===== src/Switch/Summary.antt =====
-- How scripts/python/lib/switch_common.py reads the summary of the port channels.
use cluster_genesis.Base.{
  Bool, true, false, ◌||◌, Option, none, some, List, [], ◌∷◌, ◌++◌, nat_beq, nat_eq, option_eq,
  Text, codes, text_eq, Result, ◌>>=◌, switch_exception, type_error, ok, err,
}
use cluster_genesis.Base.Value.{Port, port_str, port_eq}
use cluster_genesis.Base.Regex.{search, space, lit, chars, seq, alt}

-- Whether the summary names a port: `re.findall(PORT_PREFIX + str(port) + r'[\s+|\(]', summary)`;
-- `None` is no text to search.
unfoldable pub is_in_summary : Port → Option Text → Result Bool
unfolding search port_str
is_in_summary port none = err type_error
is_in_summary port (some t) =
    elim (search
      (seq (lit (codes "Eth" ++ port_str port))
        (alt space (chars (λ c. nat_beq c 43 || (nat_beq c 124 || nat_beq c 40)))))
      t) [ none ↦ ok false | some m ↦ ok true ]

unfoldable pub search_all : List Port → Option Text → Result (Unit {0})
unfolding is_in_summary
search_all [] t = ok tt
search_all (port ∷ ports) t = is_in_summary port t >>= λ b. search_all ports t

-- The first port that the summary lacks is an error.
unfoldable pub check_added : List Port → Option Text → Result (Unit {0})
unfolding is_in_summary
check_added [] t = ok tt
check_added (port ∷ ports) t = is_in_summary port t >>= λ b. elim b [
  | true ↦ check_added ports t
  | false ↦ err switch_exception
]
