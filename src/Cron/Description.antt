-- ===== src/Cron/Description.antt =====
-- `cronDescription` of cron.ts: what an expression is said to mean.
use cubestack.Prelude.{
  decimal, number_from, ℕ, ltb, ◌==◌, Text, codes, text_eq, trim, starts_with, take, drop,
  is_truthy, is_some, get_or, get_elem?, not, ◌&&◌, List, [], ◌∷◌, ◌++◌, Option, none, some,
  if◌then◌else◌,
}
use cubestack.Cron.{is_valid_cron, split_spaces, is_digits}

pub record CronDescription : Type 0 where
  pub text : Option Text
  pub error : Option Text

abbrev pub weekdays : List Text
weekdays = codes "日" ∷ codes "一" ∷ codes "二" ∷ codes "三" ∷ codes "四" ∷ codes "五" ∷ codes "六" ∷ []

-- `pad`
unfoldable pub padded : ℕ → Text
unfolding decimal
padded n = if ltb n 10 then codes "0" ++ decimal n else decimal n

-- `at(pad(hour) + pad(minute))`
unfoldable pub clock : ℕ → ℕ → Text
unfolding padded
clock hour minute = let hm = padded hour ++ padded minute in take 2 hm ++ (codes ":" ++ drop 2 hm)

unfoldable pub every_n : Text → Text → Option Text
every_n field measure =
    if not (starts_with (codes "*/") field)
    then none
    else some (codes "每 " ++ (drop 2 field ++ (codes " " ++ measure)))

unfoldable pub plain : Text → Option ℕ
unfolding text_eq
plain field =
    if not (text_eq field (codes "*")) && is_digits field then some (number_from 0 field) else none

-- the name of a weekday, or its number
unfoldable pub weekday : ℕ → Text
unfolding decimal
weekday n = get_or (get_elem? weekdays (if n == 7 then 0 else n)) (decimal n)

-- `step ? step : e`
unfoldable pub by_step : Text → Text → Text
unfolding every_n
by_step minute e =
    let step = get_or (every_n minute (codes "分钟")) [] in if is_truthy step then step else e

-- The shapes that have a text of their own, the most specific first.
unfoldable pub shape_text : List Text → Text → Text
unfolding plain clock weekday by_step text_eq
shape_text (m ∷ h ∷ dom ∷ mon ∷ dow ∷ []) e =
    let timed = is_some (plain m) && is_some (plain h) in
    let every_month = text_eq mon (codes "*") in
    let at_time = clock (get_or (plain h) 0) (get_or (plain m) 0) in
    if timed && (not (is_some (plain dom)) && (not (is_some (plain dow)) && every_month))
    then codes "每天 " ++ at_time
    else if timed && (is_some (plain dom) && (not (is_some (plain dow)) && not every_month))
    then mon ++ (codes " 月 " ++ (dom ++ (codes " 日 " ++ at_time)))
    else if timed && (is_some (plain dow) && (not (is_some (plain dom)) && every_month))
    then codes "每周" ++ (weekday (get_or (plain dow) 0) ++ (codes " " ++ at_time))
    else if is_some (plain m)
        && (not (is_some (plain h))
            && (not (is_some (plain dom)) && (not (is_some (plain dow)) && every_month)))
    then codes "每小时第 " ++ (decimal (get_or (plain m) 0) ++ codes " 分")
    else by_step m e
shape_text _ e = e

abbrev pub invalid_cron : Text
invalid_cron = codes "无效的 Cron 表达式(5 段:分 时 日 月 周;仅支持数字、*/步长、逗号列表,如 0 2 * * *)"

unfoldable pub cron_description : Text → CronDescription
unfolding shape_text is_valid_cron split_spaces trim
cron_description expr =
    let e = trim expr in
    if not (is_truthy e)
    then record { text = none; error = none }
    else if not (is_valid_cron e)
    then record { text = none; error = some invalid_cron }
    else record { text = some (shape_text (split_spaces e) e); error = none }
