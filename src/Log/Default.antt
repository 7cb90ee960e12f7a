-- ===== src/Log/Default.antt =====
-- src/log/manager.cpp: the default pattern, "%d{%Y-%m-%d %H:%M:%S}%t%T%t%N%t%C%t[%p]%t[%c]%t%f:%l%t%m%n".
use qc.Base.{ℕ, ◌≡◌, refl, List, [], ◌∷◌, ◌++◌}
use qc.Log.{Event}
use qc.Log.Layout.{Platform, default_time, level_to_string, layout, init}
use qc.Log.Manager.{default_layout}

-- The fields of a line, as the pattern lists them.
abbrev pub default_line : Platform → Event → List ℕ
default_line p e =
    p.local_time default_time e.time
    ++ (b'\t' ∷ p.decimal e.thread_id
        ++ (b'\t' ∷ e.thread_name
            ++ (b'\t' ∷ p.decimal e.coroutine_id
                ++ (b'\t' ∷ b'[' ∷ level_to_string e.level
                    ++ (b']' ∷ b'\t' ∷ b'[' ∷ e.name
                        ++ (b']' ∷ b'\t' ∷ e.filename
                            ++ (b':' ∷ p.decimal e.line ++ (b'\t' ∷ e.ss ++ (b'\n' ∷ [])))))))))

-- Every event is written by the default layout as its time, thread, thread name, coroutine, level in
-- brackets, logger name in brackets, file, line and content, with tabs between and a new line.
pub default_layout_lem : (p : Platform) (e : Event) → layout p default_layout e ≡ default_line p e
unfolding layout init
default_layout_lem p e = refl
