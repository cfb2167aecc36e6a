-- ===== src/Tests/Routes.antt =====
-- Routes and decimals.
use steady_proxy.Base.{
  ◌^◌, ◌-◌, true, false, [], ◌≡◌, refl, text, str_eq, pos, negsuc, arith, has_prefix, contains,
  trim_prefix, cut, cut_prefix, trim_space,
}
use steady_proxy.Number.{itoa, atoi_safe}
use steady_proxy.Number.RoundTrip.{atoi_safe-itoa}
use steady_proxy.Route.{
  is_messages_path, is_responses_path, gemini_target, is_gemini_version, is_ascii_letters, path_is,
}
use steady_proxy.Route.Gemini.{IsCall, vertex, print_target, gemini_target-print_target}

atoi_safe-itoa_example : atoi_safe (itoa (negsuc 528)) ≡ negsuc 528
atoi_safe-itoa_example = atoi_safe-itoa (negsuc 528) (omega arith)

-- The least `int` prints with no digits.
itoa_least : itoa (negsuc (2 ^ 63 - 1)) ≡ text "-"
unfolding itoa
itoa_least = refl

atoi_values :
    (atoi_safe (text " 42\n") ≡ pos 42)
    × (atoi_safe (text "4x") ≡ pos 0)
    × (atoi_safe (text "99999999999999999999") ≡ pos (2 ^ 63 - 1))
    × (atoi_safe (text "-3") ≡ negsuc 2)
unfolding atoi_safe trim_space
atoi_values = (refl, refl, refl, refl)

paths :
    (is_messages_path (text "/v1/messages") ≡ true)
    × (is_messages_path (text "/v1/messages/count_tokens") ≡ false)
    × (is_messages_path (text "/v1/messagesfoo") ≡ false)
    × (is_responses_path (text "/v1/responses/1") ≡ true)
    × (gemini_target (text "/v1beta/models/g-2:streamGenerateContent")
        ≡ (text "g-2", text "streamGenerateContent"))
    × (gemini_target (text "/v2/models/g:go") ≡ ([], []))
    × (gemini_target (text "/v1/models/g:go2") ≡ ([], []))
unfolding is_messages_path is_responses_path gemini_target str_eq has_prefix contains cut cut_prefix
    trim_prefix path_is
paths = (refl, refl, refl, refl, refl, refl, refl)

version_known : is_gemini_version (text "v1beta1") ≡ true
unfolding is_gemini_version str_eq
version_known = refl

call : IsCall (text "g") (text "run")
unfolding is_ascii_letters
call = record {
  model_ne_nil = refl;
  model_no_slash = refl;
  model_no_colon = refl;
  method_letters = refl;
}

gemini_target-print_target_example :
    gemini_target
      (print_target (text "v1beta1") (vertex (text "p") (text "eu")) (text "g") (text "run"))
    ≡ (text "g", text "run")
gemini_target-print_target_example =
    gemini_target-print_target (text "v1beta1") (vertex (text "p") (text "eu")) (text "g")
      (text "run") version_known (refl, refl, refl, refl) call
