-- ===== src/Icon/Signs.antt =====
-- ferr/src/components/Icon.tsx: the drawings of its switch, from "play" to "toggle".
use trokk.Prelude.{[], ◌∷◌, none, some}
use trokk.Text.{str}
use trokk.Icon.Shapes.{Drawing, outline, filled, circle, line, path, polygon, polyline, rect}

abbrev pub play_icon : Drawing
play_icon = record { paint = filled; shapes = polygon (str "5 3 19 12 5 21 5 3") ∷ [] }

abbrev pub pause_icon : Drawing
pause_icon = record {
  paint = filled;
  shapes =
      rect (str "6") (str "4") (str "4") (str "16") none
      ∷ rect (str "14") (str "4") (str "4") (str "16") none
      ∷ [];
}

abbrev pub refresh_icon : Drawing
refresh_icon = record {
  paint = outline (str "1.5");
  shapes =
      polyline (str "23 4 23 10 17 10")
      ∷ polyline (str "1 20 1 14 7 14")
      ∷ path (str "M3.51 9a9 9 0 0 1 14.85-3.36L23 10M1 14l4.64 4.36A9 9 0 0 0 20.49 15")
      ∷ [];
}

abbrev pub export_icon : Drawing
export_icon = record {
  paint = outline (str "1.5");
  shapes =
      path (str "M21 15v4a2 2 0 0 1-2 2H5a2 2 0 0 1-2-2v-4")
      ∷ polyline (str "17 8 12 3 7 8")
      ∷ line (str "12") (str "3") (str "12") (str "15")
      ∷ [];
}

abbrev pub search_icon : Drawing
search_icon = record {
  paint = outline (str "1.5");
  shapes =
      circle (str "11") (str "11") (str "8")
      ∷ line (str "21") (str "21") (str "16.65") (str "16.65")
      ∷ [];
}

abbrev pub close_icon : Drawing
close_icon = record {
  paint = outline (str "2");
  shapes =
      line (str "18") (str "6") (str "6") (str "18")
      ∷ line (str "6") (str "6") (str "18") (str "18")
      ∷ [];
}

abbrev pub chevron_down_icon : Drawing
chevron_down_icon = record {
  paint = outline (str "2");
  shapes = polyline (str "6 9 12 15 18 9") ∷ [];
}

abbrev pub chevron_right_icon : Drawing
chevron_right_icon = record {
  paint = outline (str "2");
  shapes = polyline (str "9 18 15 12 9 6") ∷ [];
}

abbrev pub external_icon : Drawing
external_icon = record {
  paint = outline (str "1.5");
  shapes =
      path (str "M18 13v6a2 2 0 0 1-2 2H5a2 2 0 0 1-2-2V8a2 2 0 0 1 2-2h6")
      ∷ polyline (str "15 3 21 3 21 9")
      ∷ line (str "10") (str "14") (str "21") (str "3")
      ∷ [];
}

abbrev pub check_icon : Drawing
check_icon = record { paint = outline (str "2"); shapes = polyline (str "20 6 9 17 4 12") ∷ [] }

abbrev pub x_icon : Drawing
x_icon = record {
  paint = outline (str "2");
  shapes =
      line (str "18") (str "6") (str "6") (str "18")
      ∷ line (str "6") (str "6") (str "18") (str "18")
      ∷ [];
}

abbrev pub dot_icon : Drawing
dot_icon = record { paint = filled; shapes = circle (str "12") (str "12") (str "4") ∷ [] }

abbrev pub info_icon : Drawing
info_icon = record {
  paint = outline (str "1.5");
  shapes =
      circle (str "12") (str "12") (str "10")
      ∷ line (str "12") (str "16") (str "12") (str "12")
      ∷ line (str "12") (str "8") (str "12.01") (str "8")
      ∷ [];
}

abbrev pub warning_icon : Drawing
warning_icon = record {
  paint = outline (str "1.5");
  shapes =
      path (
        str
          "M10.29 3.86L1.82 18a2 2 0 0 0 1.71 3h16.94a2 2 0 0 0 1.71-3L13.71 3.86a2 2 0 0 0-3.42 0z")
      ∷ line (str "12") (str "9") (str "12") (str "13")
      ∷ line (str "12") (str "17") (str "12.01") (str "17")
      ∷ [];
}

abbrev pub clock_icon : Drawing
clock_icon = record {
  paint = outline (str "1.5");
  shapes = circle (str "12") (str "12") (str "10") ∷ polyline (str "12 6 12 12 16 14") ∷ [];
}

abbrev pub toggle_icon : Drawing
toggle_icon = record {
  paint = outline (str "1.5");
  shapes =
      rect (str "1") (str "5") (str "22") (str "14") (some (str "7"))
      ∷ circle (str "8") (str "12") (str "3")
      ∷ [];
}
