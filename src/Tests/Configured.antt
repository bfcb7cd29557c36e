-- ===== src/Tests/Configured.antt =====
-- Configurations: internal/config/config.go.
use static_web.Prelude.{◌≡◌, refl, Option, some, [], Bytes, codes}
use static_web.Strings.{is_empty, trim_space}
use static_web.Strconv.{parse_int}
use static_web.Config.{defaults, validate, is_bad_addr}
use static_web.Config.Valid.{IsValid, validate-IsValid}

abbrev port_of : Bytes → Option Bytes
port_of addr = some (codes "8080")

defaults_accepted : validate port_of defaults ≡ []
unfolding validate defaults is_bad_addr is_empty trim_space parse_int
defaults_accepted = refl

validate-IsValid_example : IsValid defaults
validate-IsValid_example = validate-IsValid port_of defaults defaults_accepted
