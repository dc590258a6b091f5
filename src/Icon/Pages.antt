-- ===== src/Icon/Pages.antt =====
-- ferr/src/components/Icon.tsx: the drawings of its switch, from "dashboard" to "trash".
use trokk.Prelude.{[], ◌∷◌, some}
use trokk.Text.{str}
use trokk.Icon.Shapes.{Drawing, outline, circle, line, path, polyline, rect}

abbrev pub dashboard_icon : Drawing
dashboard_icon = record {
  paint = outline (str "1.5");
  shapes =
      rect (str "3") (str "3") (str "7") (str "9") (some (str "1"))
      ∷ rect (str "14") (str "3") (str "7") (str "5") (some (str "1"))
      ∷ rect (str "14") (str "12") (str "7") (str "9") (some (str "1"))
      ∷ rect (str "3") (str "16") (str "7") (str "5") (some (str "1"))
      ∷ [];
}

abbrev pub stream_icon : Drawing
stream_icon = record {
  paint = outline (str "1.5");
  shapes = path (str "M22 12h-4l-3 9L9 3l-3 9H2") ∷ [];
}

abbrev pub agents_icon : Drawing
agents_icon = record {
  paint = outline (str "1.5");
  shapes =
      path (str "M17 21v-2a4 4 0 0 0-4-4H5a4 4 0 0 0-4 4v2")
      ∷ circle (str "9") (str "7") (str "4")
      ∷ path (str "M23 21v-2a4 4 0 0 0-3-3.87")
      ∷ path (str "M16 3.13a4 4 0 0 1 0 7.75")
      ∷ [];
}

abbrev pub metrics_icon : Drawing
metrics_icon = record {
  paint = outline (str "1.5");
  shapes =
      line (str "18") (str "20") (str "18") (str "10")
      ∷ line (str "12") (str "20") (str "12") (str "4")
      ∷ line (str "6") (str "20") (str "6") (str "14")
      ∷ line (str "2") (str "20") (str "22") (str "20")
      ∷ [];
}

abbrev pub control_icon : Drawing
control_icon = record {
  paint = outline (str "1.5");
  shapes =
      circle (str "12") (str "12") (str "3")
      ∷ path (
          str
            "M12 1v2M12 21v2M4.22 4.22l1.42 1.42M18.36 18.36l1.42 1.42M1 12h2M21 12h2M4.22 19.78l1.42-1.42M18.36 5.64l1.42-1.42")
      ∷ [];
}

abbrev pub settings_icon : Drawing
settings_icon = record {
  paint = outline (str "1.5");
  shapes =
      circle (str "12") (str "12") (str "3")
      ∷ path (
          str
            "M19.4 15a1.65 1.65 0 0 0 .33 1.82l.06.06a2 2 0 1 1-2.83 2.83l-.06-.06a1.65 1.65 0 0 0-1.82-.33 1.65 1.65 0 0 0-1 1.51V21a2 2 0 0 1-4 0v-.09A1.65 1.65 0 0 0 9 19.4a1.65 1.65 0 0 0-1.82.33l-.06.06a2 2 0 1 1-2.83-2.83l.06-.06A1.65 1.65 0 0 0 4.68 15a1.65 1.65 0 0 0-1.51-1H3a2 2 0 0 1 0-4h.09A1.65 1.65 0 0 0 4.6 9a1.65 1.65 0 0 0-.33-1.82l-.06-.06a2 2 0 1 1 2.83-2.83l.06.06A1.65 1.65 0 0 0 9 4.68a1.65 1.65 0 0 0 1-1.51V3a2 2 0 0 1 4 0v.09a1.65 1.65 0 0 0 1 1.51 1.65 1.65 0 0 0 1.82-.33l.06-.06a2 2 0 1 1 2.83 2.83l-.06.06A1.65 1.65 0 0 0 19.4 9a1.65 1.65 0 0 0 1.51 1H21a2 2 0 0 1 0 4h-.09a1.65 1.65 0 0 0-1.51 1z")
      ∷ [];
}

abbrev pub health_icon : Drawing
health_icon = record {
  paint = outline (str "1.5");
  shapes =
      path (str "M22 11.08V12a10 10 0 1 1-5.93-9.14") ∷ polyline (str "22 4 12 14.01 9 11.01") ∷ [];
}

abbrev pub message_icon : Drawing
message_icon = record {
  paint = outline (str "1.5");
  shapes = path (str "M21 15a2 2 0 0 1-2 2H7l-4 4V5a2 2 0 0 1 2-2h14a2 2 0 0 1 2 2z") ∷ [];
}

abbrev pub endorse_icon : Drawing
endorse_icon = record {
  paint = outline (str "1.5");
  shapes =
      path (str "M10 13a5 5 0 0 0 7.54.54l3-3a5 5 0 0 0-7.07-7.07l-1.72 1.71")
      ∷ path (str "M14 11a5 5 0 0 0-7.54-.54l-3 3a5 5 0 0 0 7.07 7.07l1.71-1.71")
      ∷ [];
}

abbrev pub propagate_icon : Drawing
propagate_icon = record {
  paint = outline (str "1.5");
  shapes =
      polyline (str "17 1 21 5 17 9")
      ∷ path (str "M3 11V9a4 4 0 0 1 4-4h14")
      ∷ polyline (str "7 23 3 19 7 15")
      ∷ path (str "M21 13v2a4 4 0 0 1-4 4H3")
      ∷ [];
}

abbrev pub respond_icon : Drawing
respond_icon = record {
  paint = outline (str "1.5");
  shapes =
      path (
        str
          "M21 11.5a8.38 8.38 0 0 1-.9 3.8 8.5 8.5 0 0 1-7.6 4.7 8.38 8.38 0 0 1-3.8-.9L3 21l1.9-5.7a8.38 8.38 0 0 1-.9-3.8 8.5 8.5 0 0 1 4.7-7.6 8.38 8.38 0 0 1 3.8-.9h.5a8.48 8.48 0 0 1 8 8v.5z")
      ∷ [];
}

abbrev pub agent_icon : Drawing
agent_icon = record {
  paint = outline (str "1.5");
  shapes =
      path (str "M20 21v-2a4 4 0 0 0-4-4H8a4 4 0 0 0-4 4v2")
      ∷ circle (str "12") (str "7") (str "4")
      ∷ [];
}

abbrev pub plus_icon : Drawing
plus_icon = record {
  paint = outline (str "2");
  shapes =
      line (str "12") (str "5") (str "12") (str "19")
      ∷ line (str "5") (str "12") (str "19") (str "12")
      ∷ [];
}

abbrev pub edit_icon : Drawing
edit_icon = record {
  paint = outline (str "1.5");
  shapes =
      path (str "M11 4H4a2 2 0 0 0-2 2v14a2 2 0 0 0 2 2h14a2 2 0 0 0 2-2v-7")
      ∷ path (str "M18.5 2.5a2.121 2.121 0 0 1 3 3L12 15l-4 1 1-4 9.5-9.5z")
      ∷ [];
}

abbrev pub trash_icon : Drawing
trash_icon = record {
  paint = outline (str "1.5");
  shapes =
      polyline (str "3 6 5 6 21 6")
      ∷ path (str "M19 6v14a2 2 0 0 1-2 2H7a2 2 0 0 1-2-2V6m3 0V4a2 2 0 0 1 2-2h4a2 2 0 0 1 2 2v2")
      ∷ [];
}
