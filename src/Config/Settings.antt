-- ===== src/Config/Settings.antt =====
-- A line `key: value` read by `ParseLine` of HPGateway/src/gateway/GatewayContext.cpp.
use chater.Common.{
  Option, ◌||◌, ◌&&◌, take, Bool-cases, inl, inr, subst, ◌⊎◌, ℕ, ◌+◌, ◌<◌, ◌≡◌, refl, sym, ap, ◌∙◌,
  false, none, some, [], ◌∷◌, ◌++◌, ◌==◌, length, drop, arith, length-append, take-append_length,
  drop-append_length, append_assoc, is_empty,
}
use chater.Common.Maps.{option-cases}
use chater.Config.{Text, Config, trim, find, is_none, front, back, start_of, end_of}
use chater.Config.Keys.{
  Key, key_text, key_of, set_key, trade_bind_ip_key, trade_port_key, quote_bind_ip_key,
  quote_port_key, io_thread_num_key, worker_thread_num_key, max_connections_key,
  heartbeat_timeout_key, log_level_key,
}
use chater.Config.Load.{unquote, assign, parse_line}
use chater.Config.Trim.{
  IsClean, and_false, trim-clean, trim-space, end_of-append, append-IsClean, find-append,
  find-there,
}

-- What holds of the name of a setting.
record IsName (k : Key) : Type 0 where
  clean : IsClean (key_text k)
  no_colon : find 58 (key_text k) ≡ none
  no_comment : (front (key_text k) == 35) ≡ false
  known : key_of (key_text k) ≡ some k

name : (k : Key) → IsName k
unfolding key_text key_of find start_of end_of
name trade_bind_ip_key = record {
  clean = record { starts = refl; ends = refl; not_empty = omega arith };
  no_colon = refl;
  no_comment = refl;
  known = refl;
}
name trade_port_key = record {
  clean = record { starts = refl; ends = refl; not_empty = omega arith };
  no_colon = refl;
  no_comment = refl;
  known = refl;
}
name quote_bind_ip_key = record {
  clean = record { starts = refl; ends = refl; not_empty = omega arith };
  no_colon = refl;
  no_comment = refl;
  known = refl;
}
name quote_port_key = record {
  clean = record { starts = refl; ends = refl; not_empty = omega arith };
  no_colon = refl;
  no_comment = refl;
  known = refl;
}
name io_thread_num_key = record {
  clean = record { starts = refl; ends = refl; not_empty = omega arith };
  no_colon = refl;
  no_comment = refl;
  known = refl;
}
name worker_thread_num_key = record {
  clean = record { starts = refl; ends = refl; not_empty = omega arith };
  no_colon = refl;
  no_comment = refl;
  known = refl;
}
name max_connections_key = record {
  clean = record { starts = refl; ends = refl; not_empty = omega arith };
  no_colon = refl;
  no_comment = refl;
  known = refl;
}
name heartbeat_timeout_key = record {
  clean = record { starts = refl; ends = refl; not_empty = omega arith };
  no_colon = refl;
  no_comment = refl;
  known = refl;
}
name log_level_key = record {
  clean = record { starts = refl; ends = refl; not_empty = omega arith };
  no_colon = refl;
  no_comment = refl;
  known = refl;
}

-- The line of a setting.
abbrev pub setting : Key → Text → Text
setting k v = key_text k ++ 58 ∷ 32 ∷ v

front-append : (xs ys : Text) → 0 < length xs → front (xs ++ ys) ≡ front xs
front-append [] ys h = absurd (omega arith)
front-append (x ∷ xs) ys h = refl

not_empty-append : (xs : Text) (y : ℕ) (ys : Text) → is_empty (xs ++ y ∷ ys) ≡ false
not_empty-append [] y ys = refl
not_empty-append (x ∷ xs) y ys = refl

setting-IsClean : (k : Key) (v : Text) → IsClean v → IsClean (setting k v)
setting-IsClean k v c =
    append-IsClean (key_text k) (58 ∷ 32 ∷ v) (name k).clean.starts (name k).clean.not_empty
      (end_of-append (58 ∷ 32 ∷ []) v c.ends c.not_empty) (omega arith)

assign_lem :
    (k : Key) (v : Text) (c : Config)
    → IsClean v
    → assign (length (key_text k)) (setting k v) c ≡ set_key k (unquote v) c
unfolding assign
assign_lem k v c h =
    rw
      (
        assign,
        take-append_length (length (key_text k)) (key_text k) (58 ∷ 32 ∷ v) refl,
        trim-clean (key_text k) (name k).clean,
        (name k).known,
        behind_colon,
        trim-space v h,
      )
      refl
  where
    behind_colon : drop (length (key_text k) + 1) (setting k v) ≡ 32 ∷ v
    behind_colon =
        ap (drop (length (key_text k) + 1)) (sym (append_assoc (key_text k) (58 ∷ []) (32 ∷ v)))
        ∙ drop-append_length (length (key_text k) + 1) (key_text k ++ 58 ∷ []) (32 ∷ v)
            (sym (length-append (key_text k) (58 ∷ [])))

-- A line with a setting's name, a colon, a space and a value without blanks at its ends sets just that
-- setting, whatever stands in the value.
pub parse_line-setting :
    (k : Key) (v : Text) (c : Config)
    → IsClean v
    → parse_line (setting k v) c ≡ set_key k (unquote v) c
unfolding parse_line
parse_line-setting k v c h =
    rw
      (
        trim-clean (setting k v) (setting-IsClean k v h),
        not_empty-append (key_text k) 58 (32 ∷ v),
        front-append (key_text k) (58 ∷ 32 ∷ v) (name k).clean.not_empty,
        (name k).no_comment,
        has_space,
        find-append 58 (key_text k) (32 ∷ v) (name k).no_colon,
      )
      (rw (and_false (back (setting k v) == 58), trim-clean (setting k v) (setting-IsClean k v h))
        (assign_lem k v c h))
  where
    has_space : is_none (find 32 (setting k v)) ≡ false
    has_space =
        ap (λ t. is_none (find 32 t)) (sym (append_assoc (key_text k) (58 ∷ []) (32 ∷ v)))
        ∙ find-there 32 (key_text k ++ 58 ∷ []) v

-- A line changes nothing or is a setting.
abbrev pub Sets : Config → Option Config → Type 0
Sets c o = (o ≡ some c) ⊎ ((k : Key) × (v : Text) × (o ≡ set_key k v c))

assign-Sets : (colon : ℕ) (line : Text) (c : Config) → Sets c (assign colon line c)
unfolding assign
assign-Sets colon line c = elim (option-cases (key_of (trim (take colon line)))) [
  | inl unknown ↦ inl (rw (assign, unknown) refl)
  | inr (k, known) ↦ inr (k, unquote (trim (drop (colon + 1) line)), rw (assign, known) refl)
]

pub parse_line-Sets : (line : Text) (c : Config) → Sets c (parse_line line c)
unfolding parse_line
parse_line-Sets line c = elim (Bool-cases (is_empty (trim line) || (front (trim line) == 35))) [
  | inl comment ↦ inl (rw (parse_line, comment) refl)
  | inr text ↦ elim (Bool-cases ((back (trim line) == 58) && is_none (find 32 (trim line)))) [
    | inl section ↦ inl (rw (parse_line, text, section) refl)
    | inr other ↦ elim (option-cases (find 58 (trim line))) [
      | inl no_colon ↦ inl (rw (parse_line, text, other, no_colon) refl)
      | inr (colon, found) ↦
          subst (Sets c) (sym (rw (parse_line, text, other, found) refl))
            (assign-Sets colon (trim line) c)
    ]
  ]
]
