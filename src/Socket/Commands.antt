-- ===== src/Socket/Commands.antt =====
-- `handle_command` of app/src/socket.rs: a command and its arguments to what the app does and answers.
use limux.Prelude.{
  join, ℕ, ◌^◌, ◌-◌, Option, none, some, Bool, true, false, List, [], ◌∷◌, ◌++◌, map, ◌==◌,
  if◌then◌else◌, Text, text, same, is_empty, trim, cut, decimal, parse_uint, unwrap_or, chain,
}
use limux.Workspace.Colors.{from_name, from_str}
use limux.Socket.Options.{ParsedOpts, parse_opts, find_opt, Response, plain, value, lines, failure}
use limux.Socket.Actions

abbrev pub u32_max : ℕ
u32_max = 2 ^ 32 - 1

-- `parse_arg!` at u32.
abbrev pub parse_u32 : Text → Option ℕ
parse_u32 t = parse_uint u32_max (trim t)

-- `parse::<i32>`.
abbrev pub negate : Option ℕ → Option Actions.I32
negate none = none
negate (some n) = some (Actions.negative n)

abbrev pub posit : Option ℕ → Option Actions.I32
posit none = none
posit (some n) = some (Actions.positive n)

abbrev pub starts_plus : Text → Bool
starts_plus [] = false
starts_plus (c ∷ cs) = c == 43

unfoldable pub parse_i32 : Text → Option Actions.I32
parse_i32 [] = none
parse_i32 (c ∷ cs) =
    if c == 45
    then (if starts_plus cs then none else negate (parse_uint (2 ^ 31) cs))
    else posit (parse_uint (2 ^ 31 - 1) (c ∷ cs))

-- `splitn(2, ' ')`: the second part is there if there is a space.
abbrev pub split_two : Text → Text × Option Text
split_two t = cut (λ c. c == 32) t

-- The lines of a listing; no lines are answered without a length.
abbrev pub listing : List Text → Response
listing [] = plain
listing (t ∷ ts) = lines (join (10 ∷ []) (t ∷ ts))

module _ {S F : Type 0} (app : Actions.App S F) where
  abbrev pub Step : Type 0
  Step = S → S × Response

  -- `return` of an error, a call that returns nothing, and one that may fail.
  abbrev pub refuse : Text → Step
  refuse e s = (s, failure e)

  abbrev pub acts : Actions.Action F → Step
  acts a s = (app.act a s, plain)

  abbrev pub tries : Actions.Attempt → Text → Step
  tries a e s = let (s', done) = app.try a s in (s', if done then plain else failure e)

  abbrev pub valid_u32 : Text → (ℕ → Step) → Option ℕ → Step
  valid_u32 name k none = refuse (text "invalid " ++ name)
  valid_u32 name k (some n) = k n

  abbrev pub with_u32 : Text → Text → (ℕ → Step) → Step
  with_u32 name t k = valid_u32 name k (parse_u32 t)

  abbrev pub with_focused : (ℕ → Step) → Step
  with_focused k s = elim (app.focused_workspace_id s) [
    | none ↦ (s, failure (text "no focused workspace"))
    | some ws_id ↦ k ws_id s
  ]

  -- Two arguments, the second of them the rest of the line.
  abbrev pub two_parts : Text → (Text → Text → Step) → Text × Option Text → Step
  two_parts usage k (first, none) = refuse (text "usage: " ++ usage)
  two_parts usage k (first, some rest) = k first rest

  abbrev pub with_two : Text → Text → (Text → Text → Step) → Step
  with_two usage args k = two_parts usage k (split_two args)

  abbrev pub shows : Text → (Text → Response) → (S → Option Text) → Step
  shows e f query s = (s, elim (query s) [ none ↦ failure e | some t ↦ f t ])

  unfoldable pub workspace_line : Actions.WorkspaceEntry → Text
  workspace_line w =
      text "id:"
      ++ (decimal w.id
          ++ (text " title:"
              ++ (app.debug w.title
                  ++ (text " panes:"
                      ++ (decimal w.panes
                          ++ ((if w.pinned then text " pinned" else [])
                              ++ elim w.color [ none ↦ [] | some c ↦ text " color=" ++ c ]))))))

  unfoldable pub set_color : Text → Step
  set_color args = with_two (text "workspace_set_color <id> <color|none>") args λ id color.
      with_u32 (text "workspace id") id λ ws_id.
        if same color (text "none")
        then acts (Actions.set_workspace_color ws_id none)
        else elim (from_name color) [
          | none ↦ refuse (text "unknown color")
          | some c ↦ acts (Actions.set_workspace_color ws_id (some c))
        ]

  abbrev pub status_parts : List Text → (Text → List Text → Step) → Step
  status_parts (key ∷ w ∷ words) k = k key (w ∷ words)
  status_parts parts k =
      refuse (text "usage: set_status <key> <value> [--icon=X] [--color=X] [--priority=N]")

  unfoldable pub set_status_parsed : ParsedOpts → ℕ → Step
  set_status_parsed parsed ws_id = status_parts parsed.positional λ key words. acts (
      Actions.set_workspace_status ws_id key (join (text " ") words)
        (find_opt (text "icon") parsed.opts) (find_opt (text "color") parsed.opts)
        (unwrap_or (Actions.positive 0) (chain (find_opt (text "priority") parsed.opts) parse_i32)))

  unfoldable pub set_status : Text → Step
  set_status args = with_focused (set_status_parsed (parse_opts args))

  unfoldable pub clear_status : Text → Step
  clear_status args = with_focused λ ws_id.
      if is_empty (trim args)
      then refuse (text "usage: clear_status <key>")
      else acts (Actions.clear_workspace_status ws_id (trim args))

  abbrev pub progress_parts : List Text → (Text → Step) → Step
  progress_parts [] k = refuse (text "usage: set_progress <0.0-1.0> [--label=X]")
  progress_parts (p ∷ ps) k = k p

  unfoldable pub set_progress : Text → Step
  set_progress args = with_focused λ ws_id.
      let parsed = parse_opts args in
      progress_parts parsed.positional λ p. elim (app.parse_f64 (trim p)) [
        | none ↦ refuse (text "invalid progress value")
        | some v ↦
            acts (Actions.set_workspace_progress ws_id v (find_opt (text "label") parsed.opts))
      ]

  abbrev pub log_parts : List Text → Step → Step
  log_parts [] k = refuse (text "usage: log <message> [--level=info|warning|error|success]")
  log_parts (p ∷ ps) k = k

  unfoldable pub log : Text → Step
  log args = with_focused λ ws_id.
      let parsed = parse_opts args in
      log_parts parsed.positional (
        acts (
          Actions.add_workspace_log ws_id (join (text " ") parsed.positional)
            (from_str (unwrap_or (text "info") (find_opt (text "level") parsed.opts)))))

  unfoldable pub close_workspace : Text → Step
  close_workspace args =
      let close = λ (id : ℕ).
        tries (Actions.close_workspace_by_id id) (text "workspace not found or pinned") in
      if is_empty (trim args) then with_focused close else with_u32 (text "workspace id") args close

  unfoldable pub current_workspace : Step
  current_workspace = shows (text "no focused workspace") value λ s.
      elim (app.current_workspace_info s) [
        | none ↦ none
        | some (id, title) ↦ some (decimal id ++ 32 ∷ title)
      ]

  unfoldable pub list_panes : Text → Step
  list_panes args s =
      let asked = if is_empty (trim args) then app.focused_workspace_id s else parse_u32 args in
      elim asked [
        | none ↦ (s, failure (text "no workspace"))
        | some ws_id ↦ (
          s,
          elim (app.list_panes ws_id s) [
            | none ↦ failure (text "workspace not found")
            | some ids ↦ value (join (text ",") (map decimal ids))
          ],
        )
      ]

  unfoldable pub remote_connect : Text → Step
  remote_connect args s =
      let parsed = parse_opts args in
      elim parsed.positional [
        | [] ↦ (s, failure (text "remote_connect requires a destination"))
        | destination ∷ others ↦
            let (s', made) =
              app.new_remote_workspace
                (record {
                  destination = destination;
                  port = chain (find_opt (text "port") parsed.opts) (parse_uint 65535);
                  identity_file = find_opt (text "identity") parsed.opts;
                  ssh_options = elim (find_opt (text "ssh-option") parsed.opts) [
                    | none ↦ []
                    | some v ↦ v ∷ []
                  ];
                  terminal_startup_command = find_opt (text "command") parsed.opts;
                  relay_port = none;
                  relay_id = none;
                  relay_token = none;
                  local_socket_path = none;
                })
                s in
            (
              s',
              elim made [
                | none ↦ failure (text "failed to create remote workspace")
                | some id ↦ value (decimal id)
              ],
            )
      ]

  abbrev pub first_u32 : List Text → Option ℕ
  first_u32 [] = none
  first_u32 (w ∷ ws) = parse_uint u32_max w

  unfoldable pub remote_disconnect : Text → Step
  remote_disconnect args =
      let parsed = parse_opts args in
      acts (
        Actions.disconnect_remote (first_u32 parsed.positional)
          (elim (find_opt (text "clear") parsed.opts) [ none ↦ false | some v ↦ true ]))
