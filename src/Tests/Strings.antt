-- ===== src/Tests/Strings.antt =====
-- The string utilities and the command line on short inputs (src/core/utils.cpp, src/main.cpp).
use bye_bye_vpn.Cli.Limits.{IsFineParse, parse_args-IsWithinLimits}
use bye_bye_vpn.Cli.{
  parse_args, default_options, exit_code, argument, plain_option, other_option, with_value,
  number_option, parse_int_fatal, try_parse_int, strtol, read_sign, read_digits,
}
use bye_bye_vpn.Common.{List, [], ◌∷◌, ◌≡◌, refl, text, bytes_eq}
use bye_bye_vpn.Text.Strip.{Piece, plain, control}
use bye_bye_vpn.Text.{skip_space}

-- A red "x".
abbrev red : List Piece
red = control (b'3' ∷ b'1' ∷ []) b'm' ∷ plain (b'x' ∷ []) ∷ control (b'0' ∷ []) b'm' ∷ []

parse_args-IsWithinLimits_example :
    IsFineParse (parse_args (text "--threads" ∷ text "20000" ∷ []) default_options)
parse_args-IsWithinLimits_example = parse_args-IsWithinLimits (text "--threads" ∷ text "20000" ∷ [])

too_many_threads : parse_args (text "--threads" ∷ text "20000" ∷ []) default_options ≡ exit_code 1
unfolding parse_args argument plain_option other_option with_value number_option parse_int_fatal
    try_parse_int strtol read_sign read_digits skip_space bytes_eq text
too_many_threads = refl
