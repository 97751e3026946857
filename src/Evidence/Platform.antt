-- ===== src/Evidence/Platform.antt =====
-- scripts/platform-support.mjs: the support policy, and a device against it.
--
-- The policy is the value that is read from docs/PLATFORM-SUPPORT.json. What
-- `new Date(text).toISOString()` returns or throws is a parameter. A part of a version is compared as
-- the natural number of its digits, which the code's doubles hold exactly below 2^53; the rounding of
-- larger parts is not modelled. The comparison is only called with texts that have passed the test
-- of dotted versions, so a part that is no number does not occur.
pub mod Versions
use secure_keyboard.Evidence.Text.{split}
use secure_keyboard.Prelude.{
  ℕ, zero, suc, ◌+◌, ◌-◌, ◌*◌, ◌^◌, ◌==◌, Bool, true, false, not, ◌&&◌, ◌||◌, List, [], ◌∷◌, ◌++◌,
  leb, ltb, length, all, map, if◌then◌else◌, String,
}
use secure_keyboard.Js.{
  JsString, js, is_digit, Value, undefined, number, string, object, Fields, get, property, is_text,
  is_natural, JsNumber, natural, negative, max_safe_integer, Call, returns, throws, text_eq,
}
use secure_keyboard.Js.Coerce.{text_of}
use secure_keyboard.Contracts.Checks.{report}
use secure_keyboard.Evidence.Checks.{add_if, ◌>>=◌, is_shaped}

-- `value?.name`
abbrev pub maybe : Value → String → Value
maybe (object fs) name = get fs name
maybe _ name = undefined

abbrev pub is_number_text : JsString → Bool
is_number_text t = ltb 0 (length t) && all is_digit t

abbrev pub is_part_count : ℕ → Bool
is_part_count n = leb 2 n && leb n 4

-- DOT_VERSION
unfoldable pub is_dot_version : JsString → Bool
is_dot_version t = is_part_count (length (split b'.' t)) && all is_number_text (split b'.' t)

-- `Number(part)` in front of a value so far.
unfoldable pub number_from : ℕ → JsString → ℕ
number_from value [] = value
number_from value (c ∷ t) = number_from (value * 10 + (c - b'0')) t

-- `compareDotVersions(left, right) < 0`; a part that is missing counts as 0.
unfoldable pub is_below : List ℕ → List ℕ → Bool
is_below [] [] = false
is_below [] (r ∷ rs) = ltb 0 r || (0 == r && is_below [] rs)
is_below (l ∷ ls) [] = l == 0 && is_below ls []
is_below (l ∷ ls) (r ∷ rs) = ltb l r || (l == r && is_below ls rs)

abbrev pub parts : JsString → List ℕ
parts t = map (number_from 0) (split b'.' t)

unfoldable pub is_dot_version_below : JsString → JsString → Bool
is_dot_version_below left right = is_below (parts left) (parts right)

-- `left < right` between strings.
unfoldable pub is_text_below : JsString → JsString → Bool
is_text_below [] [] = false
is_text_below [] (y ∷ t) = true
is_text_below (x ∷ s) [] = false
is_text_below (x ∷ s) (y ∷ t) = ltb x y || (x == y && is_text_below s t)

-- `Number.isSafeInteger`
abbrev pub is_safe_integer : Value → Bool
is_safe_integer (number (natural n)) = leb n max_safe_integer
is_safe_integer (number (negative n)) = leb (suc n) max_safe_integer
is_safe_integer _ = false

-- `left < right` between two integers.
abbrev pub is_less : Value → Value → Bool
is_less (number (natural m)) (number (natural n)) = ltb m n
is_less (number (negative m)) (number (natural n)) = true
is_less (number (negative m)) (number (negative n)) = ltb n m
is_less _ _ = false

-- A dotted version, where the value is a string.
unfoldable pub is_version_field : Value → Bool
is_version_field (string t) = is_dot_version t
is_version_field _ = false

abbrev pub is_version_below : Value → Value → Bool
is_version_below (string left) (string right) = is_dot_version_below left right
is_version_below _ _ = false

abbrev pub is_date_below : Value → Value → Bool
is_date_below (string left) (string right) = is_text_below left right
is_date_below _ _ = false

abbrev pub first : ℕ → JsString → JsString
first zero t = []
first (suc n) [] = []
first (suc n) (c ∷ t) = c ∷ first n t

abbrev pub prefixed : List JsString → List JsString
prefixed findings = map (λ f. js "platform policy: " ++ f) findings

-- A version of the device against its minimum.
abbrev pub version_findings : Value → Value → JsString → JsString → List JsString
version_findings version minimum malformed below =
    if not (is_version_field version)
    then malformed ∷ []
    else report (is_version_below version minimum) below

abbrev pub ios_findings : Value → Fields → List JsString
ios_findings policy device =
    let ios = maybe (maybe policy "platforms") "ios" in
    version_findings (get device "osVersion") (maybe ios "minimumOsVersion")
      (js "device.osVersion: must be a dotted iOS version")
      (js "device.osVersion: is below the supported iOS minimum")
    ++ version_findings (get device "securityPatchLevel") (maybe ios "minimumSecurityPatchLevel")
        (js "device.securityPatchLevel: must be a dotted iOS security version")
        (js "device.securityPatchLevel: is below the iOS security patch floor")

abbrev pub android_findings : Value → Fields → Bool → List JsString
android_findings policy device dated =
    let android = maybe (maybe policy "platforms") "android" in
    (if not (is_safe_integer (get device "apiLevel"))
      then js "device.apiLevel: must be an integer Android API level" ∷ []
      else report (is_less (get device "apiLevel") (maybe android "minimumApiLevel"))
          (js "device.apiLevel: is below the supported Android API minimum"))
    ++ (if not dated
        then js "device.securityPatchLevel: must be an ISO calendar date" ∷ []
        else report
            (is_date_below (get device "securityPatchLevel")
              (maybe android "minimumSecurityPatchLevel"))
            (js "device.securityPatchLevel: is below the Android security patch floor"))

module _ (date_text : JsString → Call JsString) where
  unfoldable pub is_valid_calendar_date : JsString → Call Bool
  is_valid_calendar_date t =
      if not (is_shaped (js "0000-00-00") t)
      then returns false
      else date_text (t ++ js "T00:00:00.000Z") >>= λ iso. returns (text_eq (first 10 iso) t)

  abbrev pub is_date_field : Value → Call Bool
  is_date_field (string t) = is_valid_calendar_date t
  is_date_field _ = returns false

  unfoldable pub validate_platform_support_policy : Value → Call (List JsString)
  validate_platform_support_policy policy =
      let ios = maybe (maybe policy "platforms") "ios" in
      let android = maybe (maybe policy "platforms") "android" in
      let targets = maybe policy "verifiedCiTargets" in
      is_date_field (maybe policy "effectiveDate") >>= λ dated.
      is_date_field (maybe android "minimumSecurityPatchLevel") >>= λ patched. returns (
        report (not (is_natural (maybe policy "schemaVersion") 1)) (js "schemaVersion must be 1")
        ++ report (not (is_text (maybe policy "policyId") (js "secure-keypad-platform-support-v1")))
            (js "policyId must identify the supported platform policy")
        ++ report (not dated) (js "effectiveDate must be a canonical calendar date")
        ++ report (not (is_text (maybe ios "minimumOsVersion") (js "15.1")))
            (js "ios minimumOsVersion must be 15.1")
        ++ report (not (is_text (maybe ios "securityPatchFormat") (js "dot-version")))
            (js "ios securityPatchFormat must be dot-version")
        ++ report (not (is_version_field (maybe ios "minimumSecurityPatchLevel")))
            (js "ios minimumSecurityPatchLevel must be a dotted version")
        ++ report
            (not (is_safe_integer (maybe android "minimumApiLevel"))
              || is_less (maybe android "minimumApiLevel") (number (natural 24)))
            (js "android minimumApiLevel must be an integer of at least 24")
        ++ report (not (is_text (maybe android "securityPatchFormat") (js "iso-date")))
            (js "android securityPatchFormat must be iso-date")
        ++ report (not patched) (js "android minimumSecurityPatchLevel must be a calendar date")
        ++ report (not (is_dot_version (text_of (maybe targets "iosSimulatorOsVersion"))))
            (js "verifiedCiTargets.iosSimulatorOsVersion must be a dotted version")
        ++ report (not (is_safe_integer (maybe targets "androidApiLevel")))
            (js "verifiedCiTargets.androidApiLevel must be an integer"))

  abbrev pub device_findings : Value → Value → Fields → List JsString → Call (List JsString)
  device_findings policy platform device (f ∷ found) = returns (prefixed (f ∷ found))
  device_findings policy platform device [] =
      if is_text platform (js "ios")
      then returns (ios_findings policy device)
      else if is_text platform (js "android")
      then (is_date_field (get device "securityPatchLevel") >>= λ dated.
          returns (android_findings policy device dated))
      else returns []

  unfoldable pub validate_platform_support_device : Value → Value → Fields → Call (List JsString)
  unfolding validate_platform_support_policy
  validate_platform_support_device policy platform device =
      validate_platform_support_policy policy >>= λ found.
      device_findings policy platform device found
