-- ===== src/Filter/Tests.antt =====
-- internal/adapter/capture/filter.go: runs on small inputs.
use cap_mesh.Prelude.{ℕ, ◌≡◌, refl, List, [], ◌∷◌, ◌++◌, Result, ok, err, arith}
use cap_mesh.Text.{Text, text, text_eq}
use cap_mesh.Map.{Map}
use cap_mesh.Filter.{
  RawInstruction, bad_fields, bad_integer, count_mismatch, parse_decimal_bpf, compile,
}
use cap_mesh.Filter.Programs.{IsCompiled, compile-IsCompiled}
use cap_mesh.Filter.Cache.{HasNoNul, fresh, called, compile_directly, compile-transparent}

abbrev line : Text → Text → Text
line s t = s ++ (10 ∷ t)

abbrev two : Text
two = line (text "2") (line (text "40 0 0 12") (line (text " 6 0  0 262144 ") []))

abbrev two_program : List RawInstruction
two_program =
    (record { op = 40; jt = 0; jf = 0; k = 12 })
    ∷ (record { op = 6; jt = 0; jf = 0; k = 262144 })
    ∷ []

parse_two : parse_decimal_bpf two ≡ ok two_program
unfolding parse_decimal_bpf
parse_two = refl

parse_short :
    parse_decimal_bpf (line (text "2") (line (text "40 0 0 12") (text "6 0 0")))
    ≡ err (bad_fields 1 3)
unfolding parse_decimal_bpf
parse_short = refl

parse_wide : parse_decimal_bpf (line (text "1") (text "40 256 0 12")) ≡ err (bad_integer 0)
unfolding parse_decimal_bpf
parse_wide = refl

parse_fewer : parse_decimal_bpf (line (text "2") (text "40 0 0 12")) ≡ err (count_mismatch 2 1)
unfolding parse_decimal_bpf
parse_fewer = refl

-- A command that knows one filter.
abbrev dumpcap : Text → Text → ℕ → Result Text Text
dumpcap interface_name [] snaplen = err (text "empty")
dumpcap interface_name (c ∷ filter) snaplen = ok two

abbrev eth : Text
eth = text "eth0"

eth-HasNoNul : HasNoNul eth
eth-HasNoNul = (omega arith, (omega arith, (omega arith, (omega arith, tt))))

abbrev one_entry : Map (List RawInstruction)
one_entry = (compile dumpcap eth (text " ip ") 128 []).1

one_entry_run : one_entry ≡ (eth ++ (0 ∷ text "128") ++ (0 ∷ text "ip"), two_program) ∷ []
unfolding compile
one_entry_run = refl

compile_again : compile dumpcap eth (text "ip") 128 one_entry ≡ (ok two_program, one_entry)
unfolding compile text_eq
compile_again = refl

compile-IsCompiled_example : IsCompiled (compile dumpcap eth (text "ip") 128 [])
compile-IsCompiled_example = compile-IsCompiled dumpcap eth (text "ip") 128 [] (omega arith, tt)

compile-transparent_example :
    (compile dumpcap eth (text "ip") 128 one_entry).0 ≡ compile_directly dumpcap eth (text "ip") 128
compile-transparent_example =
    compile-transparent dumpcap eth (text "ip") 128 eth-HasNoNul
      (called eth (text " ip ") 128 eth-HasNoNul fresh)
